-- ===== src/Central/Api.antt =====
-- pkg/central/api.go and validCountryCode of pkg/central/api-common.go: the handlers of the central
-- server's API. A handler gives its answer and the new state of the server; `none` as an answer is a panic.
-- The databases, the parsing of URLs, addresses and versions, the random text of a token and the time are
-- arguments. JSON that cannot be made of the structs, log lines and failed writes of answers are left out.
pub mod Hosts
pub mod Samples
pub mod Upgrade
use alkasir.Base.{ℕ, Bool, true, false, Option, none, some, List, Str, str_eq, codes, if◌then◌else◌}
use alkasir.Base.Dict.{Dict, lookup}
use alkasir.Shared.Validator.{Ip, Url}
use alkasir.Central.Tokens.{SessionTokenStore}

-- What apiError and WriteRestError are told.
pub data Fault : Type 0 where
  bad_payload invalid_country bad_client_addr empty_url not_valid_url asn_lookup database : Fault
  invalid_type invalid_token invalid_url no_version invalid_version no_artifact : Fault
  not_found : Fault

pub data Reply {ℓ} (R : Type ℓ) : Type ℓ where
  api_error : ℕ → Fault → Reply R
  json : R → Reply R

-- `content` are the texts that the JSON of the sample is made of.
pub record DbSample : Type 0 where
  pub host : Str
  pub country_code : Str
  pub asn : ℕ
  pub type_name : Str
  pub origin : Str
  pub token : Str
  pub content : List Str
  pub city_geo_name_id : ℕ

pub record SimpleSample : Type 0 where
  pub country_code : Str
  pub asn : ℕ
  pub type_name : Str
  pub origin_id : Str
  pub client_version : Str

-- The sessions, the samples that are in the database, and the measurements that are queued.
pub record Server : Type 0 where
  pub tokens : SessionTokenStore
  pub samples : List DbSample
  pub simple_samples : List SimpleSample
  pub queued : List (Str × Str)

-- What the handlers use of the databases; `none` is an error.
pub record Clients : Type 0 where
  pub ip2asn : Ip → Option (Option ℕ)
  pub ip2country_code : Ip → Str
  pub ip2city : Ip → ℕ
  pub is_url_allowed : Url → Str → Option Bool
  pub can_insert : DbSample → Bool
  pub can_insert_simple : SimpleSample → Bool
  pub blocked_hosts : Str → ℕ → Option (List Str)

unfoldable pub valid_country_code : Dict Bool → Str → Bool
valid_country_code codes_ cc =
    if str_eq cc (codes "__")
    then false
    else elim (lookup cc codes_) [ none ↦ false | some _ ↦ true ]

-- The number of the autonomous system, 0 where there is none; `none` where the lookup fails.
abbrev pub or_no_asn : Option ℕ → ℕ
or_no_asn none = 0
or_no_asn (some n) = n

unfoldable pub find_asn : Clients → Ip → Option ℕ
find_asn db ip = elim (db.ip2asn ip) [ none ↦ none | some found ↦ some (or_no_asn found) ]
