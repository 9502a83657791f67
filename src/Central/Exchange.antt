-- ===== src/Central/Exchange.antt =====
-- SendSamples of pkg/central/client/client.go against StoreSample of pkg/central/api.go: what the client gets as
-- answers is what the handler makes of its requests, one after the other.
mod Tests
use alkasir.Base.{
  ℕ, zero, suc, ◌+◌, ◌<◌, ◌≡◌, ◌≢◌, refl, sym, ◌∙◌, ap, inl, inr, Bool, true, false, Option, none,
  some, List, [], ◌∷◌, ◌++◌, arith, Str, codes, length, length-append, All, if◌then◌else◌,
}
use alkasir.Base.Trim.{trim_space}
use alkasir.Base.Dict.{lookup}
use alkasir.Shared.Validator.{Ip, Url}
use alkasir.Central.Tokens.{TokenData}
use alkasir.Central.Api.{Reply, api_error, json, DbSample, Server, Clients, find_asn}
use alkasir.Central.Api.Samples.{
  Parsers, StoreSampleRequest, client_sample_type, keep_sample, store_sample,
}
use alkasir.Central.Api.Samples.Laws.{store_sample-open}
use alkasir.Central.Suggestions.{Suggestion, Sample, Store}
use alkasir.Central.Suggestions.Sending.{
  Post, failed, response, SampleResponse, create_sample, received, Sent, send_samples,
}
use alkasir.Central.Suggestions.Sending.Kept.{is_taken, rejected, AreDistinct, send_samples-keeps}

-- The request of SendSamples for one sample.
abbrev pub sample_of : Suggestion → Sample → alkasir.Central.Api.Samples.Sample
sample_of s v = record {
  token = s.token;
  url = s.url;
  sample_type = v.sample_type;
  content = v.data_text;
}

-- An answer as it reaches the client; a handler that panics gives none.
unfoldable pub answer_of : Option (Reply Bool × Server) → Server → Post SampleResponse × Server
answer_of none srv = (failed, srv)
answer_of (some (json b, srv')) srv = (response 200 (some (record { is_ok = b })), srv')
answer_of (some (api_error code f, srv')) srv = (response code none, srv')

-- The answers to all samples, in their order, and the server after them.
unfoldable pub conversation :
    Parsers
    → Clients
    → Str
    → Suggestion
    → List Sample
    → Server
    → List (Post SampleResponse) × Server
unfolding answer_of
conversation p db addr s [] srv = ([], srv)
conversation p db addr s (v ∷ vs) srv =
    let (a, srv') =
      answer_of
        (store_sample p db (some (record { sample = some (sample_of s v); client_addr = addr }))
          srv)
        srv in
    let (rest, last) = conversation p db addr s vs srv' in (a ∷ rest, last)

abbrev pub answer_at : List (Post SampleResponse) → ℕ → Post SampleResponse
answer_at [] i = failed
answer_at (a ∷ as_) zero = a
answer_at (a ∷ as_) (suc i) = answer_at as_ i

abbrev yes_answer : Post SampleResponse
yes_answer = response 200 (some (record { is_ok = true }))

answer_at-All :
    (l : List (Post SampleResponse)) (i : ℕ)
    → All (λ a. a ≡ yes_answer) l
    → i < length l
    → answer_at l i ≡ yes_answer
answer_at-All [] i h lt = absurd (omega (arith, lt))
answer_at-All (a ∷ l) zero (e, h) lt = e
answer_at-All (a ∷ l) (suc i) (e, h) lt = answer_at-All l i h (omega (arith, lt))

yes_taken : is_taken (create_sample yes_answer) ≡ true
unfolding received
yes_taken = refl

rejected-none :
    (answers : ℕ → Post SampleResponse) (i : ℕ) (vs : List Sample)
    → ((j : ℕ) → j < length vs → answers (i + j) ≡ yes_answer)
    → rejected answers i vs ≡ []
rejected-none answers i [] h = refl
rejected-none answers i (v ∷ vs) h =
    let first : answers i ≡ yes_answer = ap answers (omega arith) ∙ h 0 (omega arith) in
    let taken : is_taken (create_sample (answers i)) ≡ true =
      ap (λ a. is_taken (create_sample a)) first ∙ yes_taken in
    rw taken (
      rejected-none answers (suc i) vs
        (λ j lt. ap answers (omega arith) ∙ h (suc j) (omega (arith, lt))))

-- The server takes what comes: the session is there with the URL, the address can be read and looked up, and
-- the database stores every sample.
pub record IsOpen (p : Parsers) (db : Clients) (addr : Str) (s : Suggestion) : Type 0 where
  pub u : Url
  pub ip : Ip
  pub asn : ℕ
  pub t : TokenData
  pub is_parsed : p.parse_url (trim_space s.url) ≡ some u
  pub has_ip : p.net.parse_ip addr ≡ some ip
  pub has_asn : find_asn db ip ≡ some asn
  pub can_insert : (x : DbSample) → db.can_insert x ≡ true
  pub has_url : t.url ≡ trim_space s.url

keep_sample-json :
    (p : Parsers) (db : Clients) (addr : Str) (s : Suggestion) (o : IsOpen p db addr s) (v : Sample)
    (srv : Server)
    → (x : DbSample) × (keep_sample p db (sample_of s v) addr o.u srv
        ≡ (json true, record srv { samples = srv.samples ++ x ∷ [] }))
unfolding keep_sample
keep_sample-json p db addr s o v srv =
    let x : DbSample = record {
      host = o.u.host;
      country_code = db.ip2country_code o.ip;
      asn = o.asn;
      type_name = v.sample_type;
      origin = codes "Client";
      token = s.token;
      content = v.data_text ∷ [];
      city_geo_name_id = 0;
    } in
    (
      x,
      rw (o.has_ip, keep_sample)
          (rw (o.has_asn, keep_sample) (rw (o.can_insert x, keep_sample) refl)),
    )

conversation-yes :
    (p : Parsers) (db : Clients) (addr : Str) (s : Suggestion) (o : IsOpen p db addr s)
    (vs : List Sample) (srv : Server)
    → All (λ v. client_sample_type v.sample_type ≡ true) vs
    → lookup s.token srv.tokens.sessions ≡ some o.t
    → All (λ a. a ≡ yes_answer) (conversation p db addr s vs srv).0
      × (length (conversation p db addr s vs srv).0 ≡ length vs)
      × (length (conversation p db addr s vs srv).1.samples ≡ length srv.samples + length vs)
unfolding conversation answer_of
conversation-yes p db addr s o [] srv types l = (tt, refl, omega arith)
conversation-yes p db addr s o (v ∷ vs) srv (c, types) l =
    let (x, kept) = keep_sample-json p db addr s o v srv in
    let goes =
      store_sample-open p db (sample_of s v) addr o.t o.u srv c l o.has_url o.is_parsed
      ∙ ap some kept in
    let srv' : Server = record srv { samples = srv.samples ++ x ∷ [] } in
    let (yes_all, len, more) = conversation-yes p db addr s o vs srv' types l in
    rw goes
      ((refl, yes_all), omega (arith, len), omega (arith, more, length-append srv.samples (x ∷ [])))

-- A suggestion of the client with an id and a token, samples whose ids differ and whose types are a client's, whose
-- session the server has with its URL, and a server that can look up the address and stores every sample: sending
-- the samples does not fail, all of them count as sent and none is left, and the server has as many samples more.
pub send_samples-conversation :
    (p : Parsers) (db : Clients) (addr : Str) (s : Suggestion) (m : Store) (srv : Server)
    (o : IsOpen p db addr s)
    → lookup s.id m ≡ some s
    → s.id ≢ []
    → s.token ≢ []
    → AreDistinct s.samples
    → All (λ v. client_sample_type v.sample_type ≡ true) s.samples
    → lookup s.token srv.tokens.sessions ≡ some o.t
    → (t : Sent) × (send_samples (answer_at (conversation p db addr s s.samples srv).0) s m
        ≡ inr (some t))
      × (t.n ≡ length s.samples)
      × (lookup s.id t.store ≡ some (record s { samples = [] }))
      × (length (conversation p db addr s s.samples srv).1.samples
          ≡ length srv.samples + length s.samples)
send_samples-conversation p db addr s m srv o here some_id some_token d types l =
    let (yes_all, len, more) = conversation-yes p db addr s o s.samples srv types l in
    let answers = answer_at (conversation p db addr s s.samples srv).0 in
    let (t, goes, left, count, _) =
      send_samples-keeps answers s s m here refl some_id some_token d in
    let none_left : rejected answers 0 s.samples ≡ [] = rejected-none answers 0 s.samples (λ j lt.
      ap answers (omega arith)
      ∙ answer_at-All (conversation p db addr s s.samples srv).0 j yes_all
          (omega (arith, len, lt))) in
    (
      t,
      goes,
      omega (arith, count, ap length none_left),
      left ∙ ap (λ k. some (record s { samples = k })) none_left,
      more,
    )
