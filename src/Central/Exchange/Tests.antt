-- ===== src/Central/Exchange/Tests.antt =====
-- Two samples for a session that is open.
use alkasir.Base.{◌+◌, ◌≡◌, refl, inr, true, none, some, [], ◌∷◌, Str, str_eq, codes, length}
use alkasir.Base.Trim.{trim_space}
use alkasir.Base.Dict.{lookup}
use alkasir.Shared.Validator.{v4, Url, root_url}
use alkasir.Central.Api.{Server, Clients, find_asn}
use alkasir.Central.Api.Samples.{Parsers, client_sample_type}
use alkasir.Central.Suggestions.{Suggestion, Sample, Store}
use alkasir.Central.Suggestions.Sending.{Sent, send_samples}
use alkasir.Central.Exchange.{answer_at, conversation, send_samples-conversation}

abbrev url : Url
url = root_url (codes "http") (codes "a")

abbrev parsers : Parsers
parsers = record {
  parse_url = λ _. some url;
  net = record { split_host_port = λ _. none; parse_ip = λ _. some (v4 134744072) };
  country_codes = [];
}

abbrev clients : Clients
clients = record {
  ip2asn = λ _. some (some 42);
  ip2country_code = λ _. codes "SE";
  ip2city = λ _. 7;
  is_url_allowed = λ _ _. some true;
  can_insert = λ _. true;
  can_insert_simple = λ _. true;
  blocked_hosts = λ _ _. some [];
}

abbrev sample : Str → Str → Sample
sample id kind = record { id = id; sample_type = kind; data_text = []; created_at = 1 }

abbrev item : Suggestion
item = record {
  id = codes "i";
  token = codes "t";
  url = codes "h";
  created_at = 1;
  samples = sample (codes "a") (codes "DNSQuery") ∷ sample (codes "aa") (codes "HTTPHeader") ∷ [];
  prepared = true;
}

abbrev server : Server
server = record {
  tokens = record {
    sessions = (codes "t", record { id = codes "t"; created_at = 3; url = codes "h" }) ∷ [];
    sessions_active = 1;
    sessions_total = 1;
  };
  samples = [];
  simple_samples = [];
  queued = [];
}

abbrev store : Store
store = (codes "i", item) ∷ []

send_samples-conversation_example :
    (t : Sent) × (send_samples
        (answer_at (conversation parsers clients [] item item.samples server).0)
        item
        store
      ≡ inr (some t))
    × (t.n ≡ 2)
    × (lookup (codes "i") t.store ≡ some (record item { samples = [] }))
    × (length (conversation parsers clients [] item item.samples server).1.samples ≡ 0 + 2)
unfolding lookup str_eq client_sample_type find_asn trim_space
send_samples-conversation_example =
    send_samples-conversation parsers clients [] item store server
      (record {
        u = url;
        ip = v4 134744072;
        asn = 42;
        t = record { id = codes "t"; created_at = 3; url = codes "h" };
        is_parsed = refl;
        has_ip = refl;
        has_asn = refl;
        can_insert = λ _. refl;
        has_url = refl;
      })
      refl (λ e. cc e) (λ e. cc e) ((λ e. cc e, tt), (tt, tt)) (refl, (refl, tt)) refl
