-- ===== src/Central/Api/Samples/Laws.antt =====
-- What an answer of SuggestionToken promises to StoreSample.
use mathlib.Core.Path.{subst₂}
use alkasir.Base.{
  ℕ, ◌+◌, true, false, ◌≡◌, refl, sym, ◌∙◌, ap, inl, inr, Option, none, some, [], ◌∷◌, ◌++◌, Str,
  str_eq, str_eq_iff, Option-cases, Bool-cases, some_inj,
}
use alkasir.Base.Trim.{trim_space}
use alkasir.Base.Dict.{lookup, insert, lookup-insert_self}
use alkasir.Shared.Validator.{Ip, Url, accepted_url}
use alkasir.Central.Tokens.{SessionTokenStore, TokenData, get, new}
use alkasir.Central.Api.{
  Reply, api_error, json, DbSample, Server, Clients, valid_country_code, find_asn,
}
use alkasir.Central.Api.Samples.{
  Parsers, SuggestionTokenRequest, SuggestionTokenResponse, checked_url, default_measurements,
  queue_measurements, token_sample, open_session, token_of_url, token_for, suggestion_token, Sample,
  client_sample_type, keep_sample, store_sample,
}

-- What an opened session has gone through.
pub record Opened (p : Parsers) (db : Clients) (random : Option Str) (now : ℕ)
    (req : SuggestionTokenRequest) (r : SuggestionTokenResponse) (s s' : Server) : Type 0 where
  pub ip : Ip
  pub asn : ℕ
  pub u : Url
  pub is_named : str_eq (trim_space req.url) [] ≡ false
  pub is_checked : checked_url p (trim_space req.url) ≡ some u
  pub is_allowed : db.is_url_allowed u (db.ip2country_code ip) ≡ some true
  pub is_opened : open_session p db random now req ip asn u s ≡ some (json r, s')

past_url :
    (p : Parsers) (db : Clients) (random : Option Str) (now : ℕ) (req : SuggestionTokenRequest)
    (r : SuggestionTokenResponse) (s s' : Server) (ip : Ip) (u : Url)
    → str_eq (trim_space req.url) [] ≡ false
    → checked_url p (trim_space req.url) ≡ some u
    → token_of_url p db random now req ip u s ≡ some (json r, s')
    → r.is_ok ≡ true
    → Opened p db random now req r s s'
unfolding token_of_url
past_url p db random now req r s s' ip u n c h ok = elim (Option-cases (find_asn db ip)) [
  | inl e ↦ cc (rw (e, token_of_url) at h)
  | inr (asn, e) ↦
      let h1 = rw (e, token_of_url) at h in
      elim (Option-cases (db.is_url_allowed u (db.ip2country_code ip))) [
        | inl f ↦ cc (rw (f, token_of_url) at h1)
        | inr (true, f) ↦ record {
          ip = ip;
          asn = asn;
          u = u;
          is_named = n;
          is_checked = c;
          is_allowed = f;
          is_opened = rw (f, token_of_url) at h1;
        }
        | inr (false, f) ↦ cc (rw (f, token_of_url) at h1, ok)
      ]
]

past_address :
    (p : Parsers) (db : Clients) (random : Option Str) (now : ℕ) (req : SuggestionTokenRequest)
    (r : SuggestionTokenResponse) (s s' : Server) (ip : Ip)
    → token_for p db random now req ip s ≡ some (json r, s')
    → r.is_ok ≡ true
    → Opened p db random now req r s s'
unfolding token_for
past_address p db random now req r s s' ip h ok =
    elim (Bool-cases (str_eq (trim_space req.url) [])) [
      | inl e ↦ cc (rw (e, token_for) at h)
      | inr e ↦
          let h1 = rw (e, token_for) at h in
          elim (Option-cases (checked_url p (trim_space req.url))) [
            | inl f ↦ cc (rw (f, token_for) at h1)
            | inr (u, f) ↦ past_url p db random now req r s s' ip u e f (rw (f, token_for) at h1) ok
          ]
    ]

pub suggestion_token-Opened :
    (p : Parsers) (db : Clients) (random : Option Str) (now : ℕ) (req : SuggestionTokenRequest)
    (r : SuggestionTokenResponse) (s s' : Server)
    → suggestion_token p db random now (some req) s ≡ some (json r, s')
    → r.is_ok ≡ true
    → Opened p db random now req r s s'
unfolding suggestion_token
suggestion_token-Opened p db random now req r s s' h ok =
    elim (Bool-cases (valid_country_code p.country_codes req.country_code)) [
      | inr bad ↦ cc (rw (bad, suggestion_token) at h)
      | inl c ↦
          let h1 = rw (c, suggestion_token) at h in
          elim (Option-cases req.client_addr) [
            | inl e ↦ cc (rw (e, suggestion_token) at h1)
            | inr (ip, e) ↦
                past_address p db random now req r s s' ip (rw (e, suggestion_token) at h1) ok
          ]
    ]

queue_measurements-keeps :
    (token : Str) (o : Option Str) (s : Server)
    → ((queue_measurements token o s).tokens ≡ s.tokens)
      × ((queue_measurements token o s).samples ≡ s.samples)
unfolding queue_measurements
queue_measurements-keeps token none s = (refl, refl)
queue_measurements-keeps token (some url) s = (refl, refl)

abbrev answer_of : SuggestionTokenResponse → Reply SuggestionTokenResponse → SuggestionTokenResponse
answer_of d (json r) = r
answer_of d (api_error _ _) = d

-- What `open_session` has done where it answers with a session.
abbrev pub IsDone :
    Clients
    → ℕ
    → SuggestionTokenRequest
    → Ip
    → ℕ
    → Url
    → Server
    → SuggestionTokenResponse
    → Server
    → Type 0
IsDone db now req ip asn u s r s' =
    (r.url ≡ trim_space req.url)
    × (lookup r.token s'.tokens.sessions
        ≡ some (record { id = r.token; created_at = now; url = trim_space req.url }))
    × (s'.samples
        ≡ s.samples ++ token_sample db ip asn u r.token (trim_space req.url) req.country_code ∷ [])

pub open_session-IsDone :
    (p : Parsers) (db : Clients) (random : Option Str) (now : ℕ) (req : SuggestionTokenRequest)
    (ip : Ip) (asn : ℕ) (u : Url) (r : SuggestionTokenResponse) (s s' : Server)
    → open_session p db random now req ip asn u s ≡ some (json r, s')
    → IsDone db now req ip asn u s r s'
unfolding open_session new
open_session-IsDone p db none now req ip asn u r s s' h = cc h
open_session-IsDone p db (some token) now req ip asn u r s s' h =
    let sample = token_sample db ip asn u token (trim_space req.url) req.country_code in
    let entry : TokenData = record { id = token; created_at = now; url = trim_space req.url } in
    let tokens : SessionTokenStore = record {
      sessions = insert token entry s.tokens.sessions;
      sessions_active = s.tokens.sessions_active + 1;
      sessions_total = s.tokens.sessions_total + 1;
    } in
    let s1 : Server = record s { tokens = tokens; samples = s.samples ++ sample ∷ [] } in
    let r1 : SuggestionTokenResponse = record {
      is_ok = true;
      url = trim_space req.url;
      token = token;
    } in
    elim (Bool-cases (db.can_insert sample)) [
      | inr bad ↦ cc (rw (bad, open_session) at h)
      | inl fine ↦
          let same = some_inj (rw (fine, open_session) at h) in
          let (t, v) = queue_measurements-keeps token (default_measurements p req.url) s1 in
          subst₂ (λ x y. IsDone db now req ip asn u s x y) (ap (λ x. answer_of r1 x.0) same)
            (ap (λ x. x.1) same)
            (
              refl,
              ap (λ x. lookup token x.sessions) t
                  ∙ lookup-insert_self token entry s.tokens.sessions,
              v,
            )
    ]

default_measurements-given :
    (p : Parsers) (text : Str) (u : Url)
    → str_eq (trim_space text) [] ≡ false
    → checked_url p (trim_space text) ≡ some u
    → default_measurements p text ≡ some (trim_space text)
unfolding default_measurements
default_measurements-given p text u named checked =
    rw (named, default_measurements) (rw (checked, default_measurements) refl)

-- The measurements of an opened session are queued.
pub open_session-queued :
    (p : Parsers) (db : Clients) (random : Option Str) (now : ℕ) (req : SuggestionTokenRequest)
    (ip : Ip) (asn : ℕ) (u : Url) (r : SuggestionTokenResponse) (s s' : Server)
    → str_eq (trim_space req.url) [] ≡ false
    → checked_url p (trim_space req.url) ≡ some u
    → open_session p db random now req ip asn u s ≡ some (json r, s')
    → s'.queued ≡ s.queued ++ (r.token, trim_space req.url) ∷ []
unfolding open_session new queue_measurements
open_session-queued p db none now req ip asn u r s s' named checked h = cc h
open_session-queued p db (some token) now req ip asn u r s s' named checked h =
    let sample = token_sample db ip asn u token (trim_space req.url) req.country_code in
    let r1 : SuggestionTokenResponse = record {
      is_ok = true;
      url = trim_space req.url;
      token = token;
    } in
    elim (Bool-cases (db.can_insert sample)) [
      | inr bad ↦ cc (rw (bad, open_session) at h)
      | inl fine ↦
          let h1 = rw (fine, open_session) at h in
          let h2 =
            rw (default_measurements-given p req.url u named checked, queue_measurements) at h1 in
          let same = some_inj h2 in
          sym (ap (λ x. x.1.queued) same)
          ∙ ap (λ t. s.queued ++ (t, trim_space req.url) ∷ [])
              (ap (λ x. (answer_of r1 x.0).token) same)
    ]

pub checked_url-parsed :
    (p : Parsers) (text : Str) (u : Url)
    → checked_url p text ≡ some u
    → (p.parse_url text ≡ some u) × (accepted_url p.net u ≡ true)
unfolding checked_url
checked_url-parsed p text u h = elim (Option-cases (p.parse_url text)) [
  | inl e ↦ cc (rw (e, checked_url) at h)
  | inr (w, e) ↦
      let h1 = rw (e, checked_url) at h in
      elim (Bool-cases (accepted_url p.net w)) [
        | inr bad ↦ cc (rw (bad, checked_url) at h1)
        | inl fine ↦
            let same : w ≡ u = some_inj (rw (fine, checked_url) at h1) in
            (e ∙ ap some same, sym (ap (accepted_url p.net) same) ∙ fine)
      ]
]

pub store_sample-open :
    (p : Parsers) (db : Clients) (v : Sample) (addr : Str) (t : TokenData) (u : Url) (s : Server)
    → client_sample_type v.sample_type ≡ true
    → lookup v.token s.tokens.sessions ≡ some t
    → t.url ≡ trim_space v.url
    → p.parse_url (trim_space v.url) ≡ some u
    → store_sample p db (some (record { sample = some v; client_addr = addr })) s
      ≡ some (keep_sample p db v addr u s)
unfolding store_sample get
store_sample-open p db v addr t u s c l same parsed =
    rw (c, store_sample)
      (rw (l, store_sample)
        (rw ((str_eq_iff t.url (trim_space v.url)).1 same, store_sample)
          (rw (parsed, store_sample) refl)))

-- Where SuggestionToken answers with a session, its URL is an accepted one that the database allows, one
-- sample more is stored, and StoreSample takes every sample of a client's type that comes with the token and,
-- but for space around it, the URL: only the address, its lookup and the database can still refuse it.
pub suggestion_token-serves :
    (p : Parsers) (db : Clients) (random : Option Str) (now : ℕ) (req : SuggestionTokenRequest)
    (r : SuggestionTokenResponse) (s s' : Server)
    → suggestion_token p db random now (some req) s ≡ some (json r, s')
    → r.is_ok ≡ true
    → (u : Url) × (accepted_url p.net u ≡ true)
      × ((x : DbSample) × (s'.samples ≡ s.samples ++ x ∷ [])
          × (x.token ≡ r.token)
          × (x.host ≡ u.host))
      × ((v : Sample) (addr : Str)
          → client_sample_type v.sample_type ≡ true
          → v.token ≡ r.token
          → trim_space v.url ≡ trim_space req.url
          → store_sample p db (some (record { sample = some v; client_addr = addr })) s'
            ≡ some (keep_sample p db v addr u s'))
suggestion_token-serves p db random now req r s s' h ok =
    let o = suggestion_token-Opened p db random now req r s s' h ok in
    let (parsed, fine) = checked_url-parsed p (trim_space req.url) o.u o.is_checked in
    let (_, found, stored) =
      open_session-IsDone p db random now req o.ip o.asn o.u r s s' o.is_opened in
    let entry : TokenData = record { id = r.token; created_at = now; url = trim_space req.url } in
    (
      o.u,
      fine,
      (
        token_sample db o.ip o.asn o.u r.token (trim_space req.url) req.country_code,
        stored,
        refl,
        refl,
      ),
      λ v addr c t same.
          store_sample-open p db v addr entry o.u s' c
            (ap (λ k. lookup k s'.tokens.sessions) t ∙ found) (sym same)
            (ap p.parse_url same ∙ parsed),
    )
