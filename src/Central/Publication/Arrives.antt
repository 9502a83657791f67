-- ===== src/Central/Publication/Arrives.antt =====
-- From the request for a token to the publication of the host.
use mathlib.Core.List.{append_assoc}
use alkasir.Base.{
  ℕ, ◌≡◌, ◌≢◌, refl, sym, ap, ◌∙◌, true, false, Option, some, List, [], ◌∷◌, ◌++◌, Str, codes,
  str_eq, str_eq_iff, arith, All, map,
}
use alkasir.Base.Trim.{trim_space}
use alkasir.Base.Dict.{lookup}
use alkasir.Shared.Validator.{Ip, Net, Url, accepted_url, accepted_host}
use alkasir.Central.Analysis.Score.{HttpHeaderResult}
use alkasir.Central.Analysis.Session
use alkasir.Central.Analysis.Session.{published, analyze}
use alkasir.Central.Analysis.Session.Complete.{analyze_complete}
use alkasir.Central.Tokens.{TokenData}
use alkasir.Central.Api.{json, DbSample, Server, Clients, find_asn}
use alkasir.Central.Api.Samples.{
  Parsers, SuggestionTokenRequest, SuggestionTokenResponse, Sample, token_sample, suggestion_token,
  client_sample_type, keep_sample, store_sample,
}
use alkasir.Central.Api.Samples.Laws.{
  suggestion_token-Opened, open_session-IsDone, open_session-queued, checked_url-parsed,
  store_sample-open,
}
use alkasir.Central.Measure.{Measurement, measurers, measure, header_host}
use alkasir.Central.Measurements.{PreparedSample, Central, work}
use alkasir.Central.Measurements.Stored.{prepared_at, rows_of, work-stored}
use alkasir.Central.Publication.{get_session_samples, IsRead}

accepted_url-host :
    (net : Net) (u : Url) → accepted_url net u ≡ true → accepted_host net u.host ≡ true
unfolding accepted_url
accepted_url-host net u h = ground arith

-- The rows before a session leave its samples as they are.
get_session_samples-fresh :
    (read : DbSample → Session.Sample) (token : Str) (xs ys : List DbSample)
    → All (λ x. str_eq x.token token ≡ false) xs
    → get_session_samples read token (xs ++ ys) ≡ get_session_samples read token ys
unfolding get_session_samples
get_session_samples-fresh read token [] ys h = refl
get_session_samples-fresh read token (x ∷ xs) ys (other, h) =
    rw (other, get_session_samples) (get_session_samples-fresh read token xs ys h)

-- The rows of a session are all given.
get_session_samples-All :
    (read : DbSample → Session.Sample) (token : Str) (xs : List DbSample)
    → All (λ x. x.token ≡ token) xs
    → get_session_samples read token xs ≡ map read xs
unfolding get_session_samples
get_session_samples-All read token [] h = refl
get_session_samples-All read token (x ∷ xs) (same, h) =
    rw ((str_eq_iff x.token token).1 same, get_session_samples)
      (ap (λ l. read x ∷ l) (get_session_samples-All read token xs h))

keep_sample-kept :
    (p : Parsers) (db : Clients) (v : Sample) (addr : Str) (u : Url) (s : Server) (ip : Ip)
    (asn : ℕ)
    → p.net.parse_ip addr ≡ some ip
    → find_asn db ip ≡ some asn
    → ((x : DbSample) → db.can_insert x ≡ true)
    → (x : DbSample) × (keep_sample p db v addr u s
        ≡ (json true, record s { samples = s.samples ++ x ∷ [] }))
      × (x.token ≡ v.token)
      × (x.type_name ≡ v.sample_type)
      × (x.origin ≡ codes "Client")
unfolding keep_sample
keep_sample-kept p db v addr u s ip asn parsed found fits =
    let x : DbSample = record {
      host = u.host;
      country_code = db.ip2country_code ip;
      asn = asn;
      type_name = v.sample_type;
      origin = codes "Client";
      token = v.token;
      content = v.content ∷ [];
      city_geo_name_id = 0;
    } in
    (
      x,
      rw (parsed, keep_sample) (rw (found, keep_sample) (rw (fits x, keep_sample) refl)),
      refl,
      refl,
      refl,
    )

-- What the session of an opened token has in the end: its token sample, the rows of the three measurements, and
-- one of the client.
session-IsComplete :
    (c : Central) (p : PreparedSample) (token url h : Str) (text : Measurement → Str) (u : Url)
    (read : DbSample → Session.Sample) (parse : Str → Option HttpHeaderResult) (t x : DbSample)
    → IsRead read
    → ((y : DbSample)
        → y.type_name ≡ codes "HTTPHeader"
        → (r : HttpHeaderResult) × (parse (read y).payload ≡ some r))
    → accepted_host c.parsers.net t.host ≡ true
    → t.type_name ≡ codes "NewClientToken"
    → t.token ≡ token
    → token ≢ []
    → x.token ≡ token
    → x.type_name ≡ codes "HTTPHeader"
    → x.origin ≡ codes "Client"
    → analyze c.parsers.net parse (
        get_session_samples read token
          (t ∷ (rows_of c p token text h (measurers c.parsers.net url u) ++ x ∷ [])))
      ≡ published (read t)
unfolding measurers measure
session-IsComplete c p token url h text u read parse t x w readable host type mine set xt xy xo =
    let rows = rows_of c p token text h (measurers c.parsers.net url u) in
    ap (analyze c.parsers.net parse) (
      get_session_samples-All read token (t ∷ (rows ++ x ∷ []))
        (mine, (refl, (refl, (refl, (xt, tt))))))
    ∙ analyze_complete c.parsers.net parse (read t) _ _ _ (read x) (record {
      token_type = w.type t ∙ type;
      token_set = λ e. set (sym mine ∙ sym (w.token t) ∙ e);
      token_host = ap (accepted_host c.parsers.net) (w.host t) ∙ host;
      first_type = w.type _;
      first_origin = w.origin _;
      second_type = w.type _;
      second_origin = w.origin _;
      central_type = w.type _;
      central_origin = w.origin _;
      client_type = w.type x ∙ xy;
      client_origin = w.origin x ∙ xo;
      central_header = (readable _ refl).0;
      central_parsed = (readable _ refl).1;
      client_header = (readable x xy).0;
      client_parsed = (readable x xy).1;
    })

-- A client that asks for a token of a URL, and whose header of it is stored after the central server has
-- measured the URL itself, gets the host published: where the token is new and not empty, no other request is
-- queued, each result has a JSON text and can be read from it, the database takes and gives back all rows, the
-- host can be told from its port, and the client's address is known, the goroutine comes to the end of its
-- round, the sample is answered with success, and the analysis of the session publishes its token sample, which
-- has the host of the URL.
pub suggestion-published :
    (c : Central) (random : Option Str) (now later : ℕ) (req : SuggestionTokenRequest)
    (r : SuggestionTokenResponse) (s s1 : Server) (own : Option Ip) (p : PreparedSample) (h : Str)
    (text : Measurement → Str) (v : Sample) (addr : Str) (ip : Ip) (asn : ℕ)
    (read : DbSample → Session.Sample) (parse : Str → Option HttpHeaderResult)
    → suggestion_token c.parsers c.clients random now (some req) s ≡ some (json r, s1)
    → r.is_ok ≡ true
    → r.token ≢ []
    → s.queued ≡ []
    → All (λ x. str_eq x.token r.token ≡ false) s.samples
    → ((u : Url)
        → c.parsers.parse_url (trim_space req.url) ≡ some u
        → header_host c.parsers.net (some u) ≡ some h)
    → ((m : Measurement) → c.marshal m ≡ some (text m))
    → ((x : DbSample) → c.clients.can_insert x ≡ true)
    → v.sample_type ≡ codes "HTTPHeader"
    → v.token ≡ r.token
    → trim_space v.url ≡ trim_space req.url
    → c.parsers.net.parse_ip addr ≡ some ip
    → find_asn c.clients ip ≡ some asn
    → IsRead read
    → ((y : DbSample)
        → y.type_name ≡ codes "HTTPHeader"
        → (res : HttpHeaderResult) × (parse (read y).payload ≡ some res))
    → (u : Url) × (p2 : PreparedSample) × (s2 : Server) × (s3 : Server) × (t : Session.Sample)
      × (c.parsers.parse_url (trim_space req.url) ≡ some u)
      × (work c own later p s1 ≡ some (p2, s2))
      × (store_sample c.parsers c.clients (some (record { sample = some v; client_addr = addr })) s2
          ≡ some (json true, s3))
      × (analyze c.parsers.net parse (get_session_samples read r.token s3.samples) ≡ published t)
      × (t.host ≡ u.host)
      × (t.token ≡ r.token)
unfolding client_sample_type str_eq
suggestion-published c random now later req r s s1 own p h text v addr ip asn read parse h0 ok set
      idle fresh named marshalled fits vtype vtoken vurl parsed found w readable =
    let o = suggestion_token-Opened c.parsers c.clients random now req r s s1 h0 ok in
    let url = trim_space req.url in
    let (is_parsed, fine) = checked_url-parsed c.parsers url o.u o.is_checked in
    let (_, known, stored) =
      open_session-IsDone c.parsers c.clients random now req o.ip o.asn o.u r s s1 o.is_opened in
    let queued =
      open_session-queued c.parsers c.clients random now req o.ip o.asn o.u r s s1 o.is_named
        o.is_checked o.is_opened in
    let waits : s1.queued ≡ (r.token, url) ∷ [] =
      queued ∙ ap (λ q. q ++ (r.token, url) ∷ []) idle in
    let worked =
      work-stored c own later p s1 r.token url h [] text o.u waits o.is_checked
        (named o.u is_parsed) marshalled fits in
    let p2 = prepared_at c own later p in
    let rows = rows_of c p2 r.token text h (measurers c.parsers.net url o.u) in
    let s2 : Server = record s1 { samples = s1.samples ++ rows; queued = [] } in
    let entry : TokenData = record { id = r.token; created_at = now; url = url } in
    let opened =
      store_sample-open c.parsers c.clients v addr entry o.u s2 (rw vtype refl)
        (ap (λ k. lookup k s1.tokens.sessions) vtoken ∙ known) (sym vurl)
        (ap c.parsers.parse_url vurl ∙ is_parsed) in
    let (x, kept, xt, xy, xo) =
      keep_sample-kept c.parsers c.clients v addr o.u s2 ip asn parsed found fits in
    let tok = token_sample c.clients o.ip o.asn o.u r.token (trim_space req.url) req.country_code in
    let all : (s1.samples ++ rows) ++ x ∷ [] ≡ s.samples ++ (tok ∷ (rows ++ x ∷ [])) =
      append_assoc s1.samples rows (x ∷ [])
      ∙ ap (λ l. l ++ (rows ++ x ∷ [])) stored
      ∙ append_assoc s.samples (tok ∷ []) (rows ++ x ∷ []) in
    (
      o.u,
      p2,
      s2,
      record s2 { samples = (s1.samples ++ rows) ++ x ∷ [] },
      read tok,
      is_parsed,
      worked,
      opened ∙ ap some kept,
      ap (λ l. analyze c.parsers.net parse (get_session_samples read r.token l)) all
          ∙ ap (analyze c.parsers.net parse)
              (get_session_samples-fresh read r.token s.samples (tok ∷ (rows ++ x ∷ [])) fresh)
          ∙ session-IsComplete c p2 r.token url h text o.u read parse tok x w readable
              (accepted_url-host c.parsers.net o.u fine) refl refl set (xt ∙ vtoken) (xy ∙ vtype)
              xo,
      w.host tok,
      w.token tok,
    )
