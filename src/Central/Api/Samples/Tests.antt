-- ===== src/Central/Api/Samples/Tests.antt =====
-- A session for http://a/, and a sample of it.
use alkasir.Base.{ℕ, ◌≡◌, refl, ◌⊎◌, Bool, true, none, some, [], ◌∷◌, str_eq, codes}
use alkasir.Base.Trim.{trim_space}
use alkasir.Base.Dict.{lookup, insert}
use alkasir.Shared.Validator.{
  root_url, v4, accepted_url, accepted_host, only_host, has_byte, accepted_ip, is_loopback, is_zero,
  in_nets, net_contains,
}
use alkasir.Central.Tokens.{TokenData, new}
use alkasir.Central.Api.{
  Fault, Reply, api_error, json, Server, Clients, valid_country_code, find_asn,
}
use alkasir.Central.Api.Samples.{
  Parsers, SuggestionTokenRequest, SuggestionTokenResponse, checked_url, default_measurements,
  queue_measurements, token_sample, open_session, token_of_url, token_for, suggestion_token, Sample,
  client_sample_type, store_sample,
}
use alkasir.Central.Api.Samples.Stored.{IsKept, store_sample-IsKept}

abbrev parsers : Parsers
parsers = record {
  parse_url = λ _. some (root_url (codes "http") (codes "a"));
  net = record { split_host_port = λ _. none; parse_ip = λ _. some (v4 134744072) };
  country_codes = (codes "SE", true) ∷ [];
}

abbrev clients : Clients
clients = record {
  ip2asn = λ _. some (some 42);
  ip2country_code = λ _. codes "SE";
  ip2city = λ _. 7;
  is_url_allowed = λ _ _. some true;
  can_insert = λ _. true;
  can_insert_simple = λ _. true;
  blocked_hosts = λ _ _. some [];
}

abbrev empty : Server
empty = record {
  tokens = record { sessions = []; sessions_active = 0; sessions_total = 0 };
  samples = [];
  simple_samples = [];
  queued = [];
}

abbrev asked : SuggestionTokenRequest
asked = record { url = codes "h"; client_addr = some (v4 134744072); country_code = codes "SE" }

abbrev answered : SuggestionTokenResponse
answered = record { is_ok = true; url = codes "h"; token = codes "t" }

abbrev sample : Sample
sample = record { token = codes "t"; url = codes "h"; sample_type = codes "DNSQuery"; content = [] }

abbrev opened : Server
opened = record {
  tokens = record {
    sessions = (codes "t", record { id = codes "t"; created_at = 3; url = codes "h" }) ∷ [];
    sessions_active = 1;
    sessions_total = 1;
  };
  samples =
      token_sample clients (v4 134744072) 42 (root_url (codes "http") (codes "a")) (codes "t")
        (codes "h") (codes "SE")
      ∷ [];
  simple_samples = [];
  queued = (codes "t", codes "h") ∷ [];
}

opened_runs :
    suggestion_token parsers clients (some (codes "t")) 3 (some asked) empty
    ≡ some (json answered, opened)
unfolding suggestion_token token_for token_of_url open_session checked_url valid_country_code
    find_asn default_measurements queue_measurements new lookup insert str_eq trim_space
    accepted_url accepted_host only_host has_byte accepted_ip is_loopback is_zero in_nets
    net_contains
opened_runs = refl

store_sample-IsKept_example :
    (o : Reply Bool × Server) × (store_sample parsers clients
        (some (record { sample = some sample; client_addr = [] }))
        opened
      ≡ some o)
    × (((c : ℕ) × (f : Fault) × (o ≡ (api_error c f, opened)))
        ⊎ ((t : TokenData) × (client_sample_type (codes "DNSQuery") ≡ true)
            × (lookup (codes "t") opened.tokens.sessions ≡ some t)
            × (t.url ≡ trim_space (codes "h"))
            × IsKept sample opened o))
store_sample-IsKept_example = store_sample-IsKept parsers clients sample [] opened
