-- ===== src/Central/Measurements/Stored.antt =====
-- What a round of a measuring goroutine stores, and where it ends the program.
use mathlib.Core.List.{append-nil, append_assoc}
use alkasir.Base.{
  ℕ, ◌≡◌, refl, sym, ap, ◌∙◌, ◌⊎◌, inl, inr, true, Option, none, some, List, [], ◌∷◌, ◌++◌, Str,
  codes, map, All, Option-cases, if◌then◌else◌,
}
use alkasir.Base.Dict.{Dict}
use alkasir.Shared.Validator.{Ip, Url, has_byte}
use alkasir.Central.Api.{DbSample, Server}
use alkasir.Central.Api.Samples.{checked_url}
use alkasir.Central.Api.Samples.Laws.{checked_url-parsed}
use alkasir.Central.Measure.{
  Measurer, dns_query, http_header, Network, Measurement, measurers, measure, measure_dns,
  measure_header, measured_host, Lookup, found, failed, late, Fetch, arrived, refused, timed_out,
  RoundTrip, header_host, host,
}
use alkasir.Central.Measurements.{
  PreparedSample, Central, update, is_stale, measured_sample, store_measurement, measure_all,
  queued_measurers, work,
}

store_measurement-stored :
    (c : Central) (p : PreparedSample) (token : Str) (m : Measurement) (samples : List DbSample)
    (text h : Str)
    → c.marshal m ≡ some text
    → host c.parsers.net c.parsers.parse_url m ≡ some h
    → c.clients.can_insert (measured_sample p token m h text) ≡ true
    → store_measurement c p token m samples
      ≡ some (samples ++ measured_sample p token m h text ∷ [])
unfolding store_measurement
store_measurement-stored c p token m samples text h marshalled named fits =
    rw (marshalled, store_measurement)
      (rw (named, store_measurement) (rw (fits, store_measurement) refl))

-- The header of a URL whose host has a colon and cannot be split ends the program.
store_measurement-ends :
    (c : Central) (p : PreparedSample) (token : Str) (m : Measurement) (samples : List DbSample)
    (text : Str)
    → c.marshal m ≡ some text
    → host c.parsers.net c.parsers.parse_url m ≡ none
    → store_measurement c p token m samples ≡ none
unfolding store_measurement
store_measurement-ends c p token m samples text marshalled named =
    rw (marshalled, store_measurement) (rw (named, store_measurement) refl)

-- Where there is a host the program goes on, whether or not the sample is kept.
store_measurement_total :
    (c : Central) (p : PreparedSample) (token : Str) (m : Measurement) (samples : List DbSample)
    (h : Str)
    → host c.parsers.net c.parsers.parse_url m ≡ some h
    → (samples' : List DbSample) × (store_measurement c p token m samples ≡ some samples')
unfolding store_measurement
store_measurement_total c p token m samples h named = elim (Option-cases (c.marshal m)) [
  | inl e ↦ (samples, rw (e, store_measurement) refl)
  | inr (text, e) ↦
      let sample = measured_sample p token m h text in
      (
        if c.clients.can_insert sample then samples ++ sample ∷ [] else samples,
        rw (e, store_measurement) (rw (named, store_measurement) refl),
      )
]

Lookup-cases :
    (l : Lookup) → ((a : List Str) × (l ≡ found a)) ⊎ (((e : Str) × (l ≡ failed e)) ⊎ (l ≡ late))
Lookup-cases (found a) = inl (a, refl)
Lookup-cases (failed e) = inr (inl (e, refl))
Lookup-cases late = inr (inr refl)

measure_dns-hostname :
    (w : Network) (hostname resolver : Str) → (measure_dns w hostname resolver).hostname ≡ hostname
unfolding measure_dns
measure_dns-hostname w hostname resolver = elim (Lookup-cases (w.dns hostname resolver)) [
  | inl (a, e) ↦ rw (e, measure_dns) refl
  | inr (inl (a, e)) ↦ rw (e, measure_dns) refl
  | inr (inr e) ↦ rw (e, measure_dns) refl
]

Fetch-cases :
    (f : Fetch)
    → ((trips : List RoundTrip) × (code : ℕ) × (header : Dict Str) × (f
          ≡ arrived trips code header))
      ⊎ (((e : Str) × (f ≡ refused e)) ⊎ (f ≡ timed_out))
Fetch-cases (arrived trips code header) = inl (trips, code, header, refl)
Fetch-cases (refused e) = inr (inl (e, refl))
Fetch-cases timed_out = inr (inr refl)

measure_header-url : (w : Network) (url : Str) → (measure_header w url).url ≡ url
unfolding measure_header
measure_header-url w url = elim (Fetch-cases (w.http url)) [
  | inl (trips, code, header, e) ↦ rw (e, measure_header) refl
  | inr (inl (a, e)) ↦ rw (e, measure_header) refl
  | inr (inr e) ↦ rw (e, measure_header) refl
]

-- The host that a measurement is stored under, given that of the header.
abbrev pub host_of : Str → Measurer → Str
host_of h (dns_query hostname _) = hostname
host_of h (http_header _) = h

-- The rows that measurements come to, given their JSON texts.
abbrev pub rows_of :
    Central → PreparedSample → Str → (Measurement → Str) → Str → List Measurer → List DbSample
rows_of c p token text h =
    map (λ v.
      measured_sample p token (measure c.network v) (host_of h v) (text (measure c.network v)))

measure_all-stored :
    (c : Central) (p : PreparedSample) (token h : Str) (text : Measurement → Str)
    (vs : List Measurer) (samples : List DbSample)
    → ((m : Measurement) → c.marshal m ≡ some (text m))
    → ((x : DbSample) → c.clients.can_insert x ≡ true)
    → All
        (λ v. host c.parsers.net c.parsers.parse_url (measure c.network v) ≡ some (host_of h v))
        vs
    → measure_all c p token vs samples ≡ some (samples ++ rows_of c p token text h vs)
unfolding measure_all
measure_all-stored c p token h text [] samples marshalled fits named =
    ap some (sym (append-nil samples))
measure_all-stored c p token h text (v ∷ vs) samples marshalled fits (here, named) =
    let m = measure c.network v in
    let x = measured_sample p token m (host_of h v) (text m) in
    rw
      (
        store_measurement-stored c p token m samples (text m) (host_of h v) (marshalled m) here
            (fits x),
        measure_all,
      )
      (measure_all-stored c p token h text vs (samples ++ x ∷ []) marshalled fits named
        ∙ ap some (append_assoc samples (x ∷ []) (rows_of c p token text h vs)))

measurers-named :
    (c : Central) (url h : Str) (u : Url)
    → c.parsers.parse_url url ≡ some u
    → header_host c.parsers.net (some u) ≡ some h
    → All
        (λ v. host c.parsers.net c.parsers.parse_url (measure c.network v) ≡ some (host_of h v))
        (measurers c.parsers.net url u)
unfolding measurers host measure
measurers-named c url h u parsed named =
    let name = measured_host c.parsers.net u.host in
    (
      ap some (measure_dns-hostname c.network name []),
      (
        ap some (measure_dns-hostname c.network name (codes "8.8.8.8:53")),
        (
          ap (λ t. header_host c.parsers.net (c.parsers.parse_url t))
                (measure_header-url c.network url)
              ∙ ap (header_host c.parsers.net) parsed
              ∙ named,
          tt,
        ),
      ),
    )

-- The sample that a goroutine prepares for a round.
abbrev pub prepared_at : Central → Option Ip → ℕ → PreparedSample → PreparedSample
prepared_at c ip now p = if is_stale now p then (update c.clients ip now p).1 else p

-- A goroutine that takes a request stores the rows of all its measurements, where each result has its JSON,
-- the database takes them, and the host of the URL can be told from its port.
pub work-stored :
    (c : Central) (ip : Option Ip) (now : ℕ) (p : PreparedSample) (s : Server) (token url h : Str)
    (queue : List (Str × Str)) (text : Measurement → Str) (u : Url)
    → s.queued ≡ (token, url) ∷ queue
    → checked_url c.parsers url ≡ some u
    → header_host c.parsers.net (some u) ≡ some h
    → ((m : Measurement) → c.marshal m ≡ some (text m))
    → ((x : DbSample) → c.clients.can_insert x ≡ true)
    → work c ip now p s
      ≡ some (
        prepared_at c ip now p,
        record s {
          samples =
              s.samples
              ++ rows_of c (prepared_at c ip now p) token text h (measurers c.parsers.net url u);
          queued = queue;
        },
      )
unfolding work queued_measurers
work-stored c ip now p s token url h queue text u waits checked named marshalled fits =
    let p' = prepared_at c ip now p in
    let (parsed, _) = checked_url-parsed c.parsers url u checked in
    rw (waits, work)
      (rw (checked, queued_measurers)
        (rw
          (
            measure_all-stored c p' token h text (measurers c.parsers.net url u) s.samples
                marshalled fits (measurers-named c url h u parsed named),
            work,
          )
          refl))

-- An accepted URL whose host has a colon and cannot be split into host and port, as that of an IPv6 address
-- without a port, ends the server: the goroutine that takes its request from the queue does not come back from
-- the round, whatever the network and the databases give.
pub work-ends :
    (c : Central) (ip : Option Ip) (now : ℕ) (p : PreparedSample) (s : Server) (token url : Str)
    (queue : List (Str × Str)) (text : Measurement → Str) (u : Url)
    → s.queued ≡ (token, url) ∷ queue
    → checked_url c.parsers url ≡ some u
    → has_byte b':' u.host ≡ true
    → c.parsers.net.split_host_port u.host ≡ none
    → ((m : Measurement) → c.marshal m ≡ some (text m))
    → work c ip now p s ≡ none
unfolding work queued_measurers measurers measure_all host measure header_host
work-ends c ip now p s token url queue text u waits checked colon unsplit marshalled =
    let p' = prepared_at c ip now p in
    let (parsed, _) = checked_url-parsed c.parsers url u checked in
    let name = measured_host c.parsers.net u.host in
    let m1 = measure c.network (dns_query name []) in
    let m2 = measure c.network (dns_query name (codes "8.8.8.8:53")) in
    let m3 = measure c.network (http_header url) in
    let unnamed : host c.parsers.net c.parsers.parse_url m3 ≡ none =
      ap (λ t. header_host c.parsers.net (c.parsers.parse_url t)) (measure_header-url c.network url)
      ∙ ap (header_host c.parsers.net) parsed
      ∙ rw (colon, header_host) unsplit in
    let (s1, e1) =
      store_measurement_total c p' token m1 s.samples name
        (ap some (measure_dns-hostname c.network name [])) in
    let (s2, e2) =
      store_measurement_total c p' token m2 s1 name
        (ap some (measure_dns-hostname c.network name (codes "8.8.8.8:53"))) in
    let e3 = store_measurement-ends c p' token m3 s2 (text m3) (marshalled m3) unnamed in
    rw (waits, work)
      (rw (checked, queued_measurers)
        (rw (e1, measure_all) (rw (e2, measure_all) (rw (e3, measure_all) refl))))
