-- ===== src/Client/Api/Suggestions/Tests.antt =====
-- A suggestion that is created with one sample, and the loop that sends it.
use alkasir.Base.{ℕ, ◌*◌, ◌≡◌, true, none, some, [], ◌∷◌, ◌++◌, arith, codes}
use alkasir.Shared.Validator.{v4, Url, root_url}
use alkasir.Central.Suggestions.{Suggestion, Sample, prepared}
use alkasir.Central.Suggestions.Sending.{failed}
use alkasir.Client.Api.Suggestions.{Parsers, Tick, Round, resend}
use alkasir.Client.Api.Suggestions.Resent.{IsEnd, resend-ends}

abbrev url : Url
url = record (root_url (codes "http") (codes "a")) { path = codes "/p"; raw_query = codes "q" }

abbrev parsers : Parsers
parsers = record {
  parse_url = λ _. some url;
  text = λ u. u.scheme ++ (codes "://" ++ (u.host ++ (u.path ++ (codes "?" ++ u.raw_query))));
  net = record { split_host_port = λ _. none; parse_ip = λ _. some (v4 134744072) };
}

abbrev sample : Sample
sample = record { id = codes "s"; sample_type = codes "DNSQuery"; data_text = []; created_at = 2 }

abbrev made : Suggestion
made = record {
  id = codes "i";
  token = [];
  url = codes "http://a/p?q";
  created_at = 1;
  samples = sample ∷ [];
  prepared = true;
}

abbrev ticks : ℕ → Tick
ticks k = record { elapsed = 30 * k; messages = []; has_client = true; answers = λ _. failed }

resend-ends_example :
    (r : Round) × (resend 31 ticks 1 made ((codes "i", made) ∷ []) ≡ some r) × IsEnd r
resend-ends_example = resend-ends ticks made ((codes "i", made) ∷ []) (λ j. omega arith)
