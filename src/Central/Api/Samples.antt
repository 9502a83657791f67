-- ===== src/Central/Api/Samples.antt =====
-- pkg/central/api.go: SuggestionToken and StoreSample, which open a session and take the samples of it.
pub mod Laws
pub mod Stored
mod Tests
use alkasir.Base.{
  ℕ, Bool, true, false, not, ◌||◌, Option, none, some, List, [], ◌∷◌, ◌++◌, Str, str_eq, codes,
  if◌then◌else◌,
}
use alkasir.Base.Dict.{Dict}
use alkasir.Base.Trim.{trim_space}
use alkasir.Shared.Validator.{Ip, Net, Url, accepted_url}
use alkasir.Central.Tokens.{SessionTokenStore, get, new}
use alkasir.Central.Api.{
  Fault, bad_payload, invalid_country, bad_client_addr, empty_url, not_valid_url, asn_lookup,
  database, invalid_type, invalid_token, invalid_url, Reply, api_error, json, DbSample, Server,
  Clients, valid_country_code, find_asn,
}

-- `url.Parse`, the hosts and addresses it is made of, and the country codes of the server.
pub record Parsers : Type 0 where
  pub parse_url : Str → Option Url
  pub net : Net
  pub country_codes : Dict Bool

pub record SuggestionTokenRequest : Type 0 where
  pub url : Str
  pub client_addr : Option Ip
  pub country_code : Str

pub record SuggestionTokenResponse : Type 0 where
  pub is_ok : Bool
  pub url : Str
  pub token : Str

-- A URL that can be parsed and is accepted.
unfoldable pub checked_url : Parsers → Str → Option Url
checked_url p text = elim (p.parse_url text) [
  | none ↦ none
  | some u ↦ if accepted_url p.net u then some u else none
]

-- The URL that DefaultMeasurements measures, where it gives measurements.
unfoldable pub default_measurements : Parsers → Str → Option Str
unfolding checked_url
default_measurements p text =
    if str_eq (trim_space text) []
    then none
    else elim (checked_url p (trim_space text)) [ none ↦ none | some _ ↦ some (trim_space text) ]

unfoldable pub queue_measurements : Str → Option Str → Server → Server
queue_measurements token none s = s
queue_measurements token (some url) s = record s { queued = s.queued ++ (token, url) ∷ [] }

-- What is stored of a new session.
abbrev pub token_sample : Clients → Ip → ℕ → Url → Str → Str → Str → DbSample
token_sample db ip asn u token url country = record {
  host = u.host;
  country_code = db.ip2country_code ip;
  asn = asn;
  type_name = codes "NewClientToken";
  origin = codes "Central";
  token = token;
  content = url ∷ country ∷ [];
  city_geo_name_id = db.ip2city ip;
}

-- From the new token on; `none` where there is no random text for it.
unfoldable pub open_session :
    Parsers
    → Clients
    → Option Str
    → ℕ
    → SuggestionTokenRequest
    → Ip
    → ℕ
    → Url
    → Server
    → Option (Reply SuggestionTokenResponse × Server)
unfolding default_measurements queue_measurements
open_session p db random now req ip asn u s = elim (new random (trim_space req.url) now s.tokens) [
  | none ↦ none
  | some (token, tokens) ↦
      let sample = token_sample db ip asn u token (trim_space req.url) req.country_code in
      if db.can_insert sample
      then some (
        json (record { is_ok = true; url = trim_space req.url; token = token }),
        queue_measurements token (default_measurements p req.url)
            (record s { tokens = tokens; samples = s.samples ++ sample ∷ [] }),
      )
      else some (api_error 500 database, record s { tokens = tokens })
]

-- From the checked URL on.
unfoldable pub token_of_url :
    Parsers
    → Clients
    → Option Str
    → ℕ
    → SuggestionTokenRequest
    → Ip
    → Url
    → Server
    → Option (Reply SuggestionTokenResponse × Server)
unfolding open_session find_asn
token_of_url p db random now req ip u s = elim (find_asn db ip) [
  | none ↦ some (api_error 500 asn_lookup, s)
  | some asn ↦ elim (db.is_url_allowed u (db.ip2country_code ip)) [
    | none ↦ some (api_error 403 database, s)
    | some false ↦ some (json (record { is_ok = false; url = req.url; token = [] }), s)
    | some true ↦ open_session p db random now req ip asn u s
  ]
]

-- From the address of the client on.
unfoldable pub token_for :
    Parsers
    → Clients
    → Option Str
    → ℕ
    → SuggestionTokenRequest
    → Ip
    → Server
    → Option (Reply SuggestionTokenResponse × Server)
unfolding checked_url token_of_url
token_for p db random now req ip s =
    if str_eq (trim_space req.url) []
    then some (api_error 400 empty_url, s)
    else elim (checked_url p (trim_space req.url)) [
      | none ↦ some (api_error 400 not_valid_url, s)
      | some u ↦ token_of_url p db random now req ip u s
    ]

-- The handler of SuggestionToken; `none` is the panic of a token without random text.
unfoldable pub suggestion_token :
    Parsers
    → Clients
    → Option Str
    → ℕ
    → Option SuggestionTokenRequest
    → Server
    → Option (Reply SuggestionTokenResponse × Server)
unfolding token_for valid_country_code
suggestion_token p db random now none s = some (api_error 500 bad_payload, s)
suggestion_token p db random now (some req) s =
    if not (valid_country_code p.country_codes req.country_code)
    then some (api_error 400 invalid_country, s)
    else elim req.client_addr [
      | none ↦ some (api_error 400 bad_client_addr, s)
      | some ip ↦ token_for p db random now req ip s
    ]

pub record Sample : Type 0 where
  pub token : Str
  pub url : Str
  pub sample_type : Str
  pub content : Str

-- The pointer to the sample is nil where the payload has none of its fields.
pub record StoreSampleRequest : Type 0 where
  pub sample : Option Sample
  pub client_addr : Str

unfoldable pub client_sample_type : Str → Bool
client_sample_type t = str_eq t (codes "HTTPHeader") || str_eq t (codes "DNSQuery")

-- From the address of the client on.
unfoldable pub keep_sample : Parsers → Clients → Sample → Str → Url → Server → Reply Bool × Server
unfolding find_asn
keep_sample p db v addr u s = elim (p.net.parse_ip addr) [
  | none ↦ (api_error 400 bad_client_addr, s)
  | some ip ↦ elim (find_asn db ip) [
    | none ↦ (api_error 500 asn_lookup, s)
    | some asn ↦
        let sample : DbSample = record {
          host = u.host;
          country_code = db.ip2country_code ip;
          asn = asn;
          type_name = v.sample_type;
          origin = codes "Client";
          token = v.token;
          content = v.content ∷ [];
          city_geo_name_id = 0;
        } in
        if db.can_insert sample
        then (json true, record s { samples = s.samples ++ sample ∷ [] })
        else (api_error 500 database, s)
  ]
]

-- The handler of StoreSample; `none` is the panic of a nil pointer.
unfoldable pub store_sample :
    Parsers → Clients → Option StoreSampleRequest → Server → Option (Reply Bool × Server)
unfolding keep_sample client_sample_type
store_sample p db none s = some (api_error 500 bad_payload, s)
store_sample p db (some req) s = elim req.sample [
  | none ↦ none
  | some v ↦
      if not (client_sample_type v.sample_type)
      then some (api_error 400 invalid_type, s)
      else elim (get v.token s.tokens) [
        | none ↦ some (api_error 400 invalid_token, s)
        | some t ↦
            if not (str_eq t.url (trim_space v.url))
            then some (api_error 400 invalid_url, s)
            else elim (p.parse_url (trim_space v.url)) [
              | none ↦ some (api_error 400 not_valid_url, s)
              | some u ↦ some (keep_sample p db v req.client_addr u s)
            ]
      ]
]
