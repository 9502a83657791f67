-- ===== src/Central/Analysis/Tests.antt =====
-- A session with a token and the headers that both sides saw.
use mathlib.Core.List.{Mem}
use alkasir.Base.{
  ℕ, ◌≡◌, ◌≢◌, ◌⊎◌, refl, true, Option, none, some, List, [], ◌∷◌, Str, codes, str_eq,
}
use alkasir.Base.Trim.{trim_space}
use alkasir.Shared.Validator.{Net, has_byte, only_host, accepted_host}
use alkasir.Central.Analysis.Score.{HttpHeaderResult}
use alkasir.Central.Analysis.Session.{Sample, aborted, published, analyze}
use alkasir.Central.Analysis.Session.Laws.{token_samples, last_of, analyze-published}
use alkasir.Central.Analysis.Tick.{tick, walk}

abbrev net : Net
net = record { split_host_port = λ _. none; parse_ip = λ _. none }

abbrev result : HttpHeaderResult
result = record { url = []; response_header = []; redirects = []; error = []; status_code = 200 }

-- Every text is read as the same result.
abbrev parse : Str → Option HttpHeaderResult
parse _ = some result

abbrev sample : ℕ → Str → Str → Sample
sample id origin type = record {
  id = id;
  host = codes "example.com";
  country_code = codes "SE";
  asn = 1;
  origin = origin;
  type = type;
  token = codes "t";
  payload = [];
  extra_data = [];
}

abbrev token : Sample
token = sample 1 (codes "Central") (codes "NewClientToken")

abbrev client : Sample
client = sample 2 (codes "Client") (codes "HTTPHeader")

abbrev central : Sample
central = sample 3 (codes "Central") (codes "HTTPHeader")

abbrev session : List Sample
session = token ∷ client ∷ central ∷ []

accepted : accepted_host net (codes "example.com") ≡ true
unfolding accepted_host only_host has_byte trim_space str_eq
accepted = refl

tick-session :
    tick (some session) true (record { last_id = 0; last_persisted_id = 0 })
    ≡ (record { last_id = 3; last_persisted_id = 3 }, codes "t" ∷ [])
unfolding tick walk str_eq
tick-session = refl

analyze-published_example :
    (analyze net parse session ≡ aborted)
    ⊎ ((t : Sample) × (analyze net parse session ≡ published t)
        × Mem t (token_samples session)
        × (t.token ≢ [])
        × (accepted_host net t.host ≡ true)
        × (last_of (codes "Client") (codes "HTTPHeader") session none ≢ none)
        × (last_of (codes "Central") (codes "HTTPHeader") session none ≢ none))
analyze-published_example = analyze-published net parse session
