-- ===== src/Central/Analysis/Session.antt =====
-- pkg/central/analysis/analysis.go, samplesAnalyzer: the samples of one session. `parse` is the
-- reading of a result from its JSON text. Logging is left out.
use alkasir.Base.{
  ℕ, Bool, true, false, Option, none, some, List, [], ◌∷◌, Str, codes, str_eq, not, leb, ◌||◌,
  if◌then◌else◌,
}
use alkasir.Base.Dict.{Dict, lookup, insert}
use alkasir.Shared.Validator.{Net, accepted_host}
use alkasir.Central.Analysis.Score.{HttpHeaderResult, score, score_http_headers, threshold}
pub mod Laws
pub mod Complete

-- pkg/central/db/postgres.go; `payload` is its Data. The time of creation is left out.
pub record Sample : Type 0 where
  pub id : ℕ
  pub host : Str
  pub country_code : Str
  pub asn : ℕ
  pub origin : Str
  pub type : Str
  pub token : Str
  pub payload : Str
  pub extra_data : Str

-- The zero value.
abbrev pub no_sample : Sample
no_sample = record {
  id = 0;
  host = [];
  country_code = [];
  asn = 0;
  origin = [];
  type = [];
  token = [];
  payload = [];
  extra_data = [];
}

pub record Organized : Type 0 where
  pub new_token_sample : Sample
  pub client_samples : Dict Sample
  pub central_samples : Dict Sample

abbrev pub nothing_organized : Organized
nothing_organized = record {
  new_token_sample = no_sample;
  client_samples = [];
  central_samples = [];
}

-- One round of the first loop; nothing where it aborts the session.
unfoldable pub add_sample : Sample → Organized → Option Organized
add_sample s o =
    if str_eq s.type (codes "NewClientToken")
    then (if not (str_eq o.new_token_sample.token [])
        then none
        else some (record o { new_token_sample = s }))
    else if str_eq s.type (codes "HTTPHeader") || str_eq s.type (codes "DNSQuery")
    then (if str_eq s.origin (codes "Central")
        then some (record o { central_samples = insert s.type s o.central_samples })
        else if str_eq s.origin (codes "Client")
        then some (record o { client_samples = insert s.type s o.client_samples })
        else some o)
    else some o

unfoldable pub organize : List Sample → Organized → Option Organized
organize [] o = some o
organize (s ∷ ss) o = elim (add_sample s o) [ none ↦ none | some o' ↦ organize ss o' ]

pub data Outcome : Type 0 where
  -- The session is given up.
  aborted : Outcome
  published : Sample → Outcome
  not_published : Outcome

module _ (net : Net) (parse : Str → Option HttpHeaderResult) where
  unfoldable pub judge : Sample → Sample → Sample → Outcome
  judge new_token client central = elim (parse client.payload) [
    | none ↦ aborted
    | some client_header ↦ elim (parse central.payload) [
      | none ↦ aborted
      | some central_header ↦
          if leb threshold (score (score_http_headers client_header central_header))
          then published new_token
          else not_published
    ]
  ]

  unfoldable pub validate : Organized → Outcome
  validate o =
      if str_eq o.new_token_sample.token []
      then aborted
      else if not (accepted_host net o.new_token_sample.host)
      then aborted
      else elim (lookup (codes "HTTPHeader") o.client_samples) [
        | none ↦ aborted
        | some client ↦ elim (lookup (codes "HTTPHeader") o.central_samples) [
          | none ↦ aborted
          | some central ↦ judge o.new_token_sample client central
        ]
      ]

  unfoldable pub analyze : List Sample → Outcome
  analyze samples = elim (organize samples nothing_organized) [
    | none ↦ aborted
    | some o ↦ validate o
  ]
