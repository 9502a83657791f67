-- ===== src/Central/Publication/Tests.antt =====
-- A suggestion of http://a/, whose header is measured by the central server and the client.
use alkasir.Base.{
  ◌≡◌, ◌≢◌, refl, true, none, some, [], ◌∷◌, str_eq, codes, some_inj, List, Str, All,
}
use alkasir.Base.Trim.{trim_space}
use alkasir.Base.Dict.{lookup, insert}
use alkasir.Shared.Validator.{
  Ip, v4, Url, root_url, accepted_url, accepted_host, only_host, has_byte, accepted_ip, is_loopback,
  is_zero, in_nets, net_contains,
}
use alkasir.Central.Analysis.Score.{HttpHeaderResult}
use alkasir.Central.Analysis.Session
use alkasir.Central.Analysis.Session.{published, analyze}
use alkasir.Central.Analysis.Tick.{tick}
use alkasir.Central.Tokens.{new}
use alkasir.Central.Api.{json, DbSample, Server, Clients, valid_country_code, find_asn}
use alkasir.Central.Api.Samples.{
  Parsers, SuggestionTokenRequest, SuggestionTokenResponse, Sample, checked_url,
  default_measurements, queue_measurements, token_sample, open_session, token_of_url, token_for,
  suggestion_token, store_sample,
}
use alkasir.Central.Measure.{Network, late, timed_out, header_host}
use alkasir.Central.Measurements.{PreparedSample, Central, no_prepared, work}
use alkasir.Central.Publication.{get_session_samples, IsRead}
use alkasir.Central.Publication.Arrives.{suggestion-published}
use alkasir.Central.Publication.Late.{late-unjudged}

abbrev address : Ip
address = v4 134744072

abbrev web : Url
web = root_url (codes "http") (codes "a")

abbrev parsers : Parsers
parsers = record {
  parse_url = λ _. some web;
  net = record { split_host_port = λ _. none; parse_ip = λ _. some address };
  country_codes = (codes "SE", true) ∷ [];
}

abbrev clients : Clients
clients = record {
  ip2asn = λ _. some (some 42);
  ip2country_code = λ _. codes "SE";
  ip2city = λ _. 7;
  is_url_allowed = λ _ _. some true;
  can_insert = λ _. true;
  can_insert_simple = λ _. true;
  blocked_hosts = λ _ _. some [];
}

abbrev network : Network
network = record { dns = λ _ _. late; http = λ _. timed_out }

abbrev central : Central
central = record { parsers = parsers; clients = clients; network = network; marshal = λ _. some [] }

abbrev empty : Server
empty = record {
  tokens = record { sessions = []; sessions_active = 0; sessions_total = 0 };
  samples = [];
  simple_samples = [];
  queued = [];
}

abbrev asked : SuggestionTokenRequest
asked = record { url = codes "h"; client_addr = some address; country_code = codes "SE" }

abbrev answered : SuggestionTokenResponse
answered = record { is_ok = true; url = codes "h"; token = codes "t" }

abbrev opened : Server
opened = record {
  tokens = record {
    sessions = (codes "t", record { id = codes "t"; created_at = 3; url = codes "h" }) ∷ [];
    sessions_active = 1;
    sessions_total = 1;
  };
  samples = token_sample clients address 42 web (codes "t") (codes "h") (codes "SE") ∷ [];
  simple_samples = [];
  queued = (codes "t", codes "h") ∷ [];
}

opened_runs :
    suggestion_token parsers clients (some (codes "t")) 3 (some asked) empty
    ≡ some (json answered, opened)
unfolding suggestion_token token_for token_of_url open_session checked_url valid_country_code
    find_asn default_measurements queue_measurements new lookup insert str_eq trim_space
    accepted_url accepted_host only_host has_byte accepted_ip is_loopback is_zero in_nets
    net_contains
opened_runs = refl

abbrev sample : Sample
sample = record {
  token = codes "t";
  url = codes "h";
  sample_type = codes "HTTPHeader";
  content = codes "{}";
}

abbrev read : DbSample → Session.Sample
read x = record {
  id = 0;
  host = x.host;
  country_code = x.country_code;
  asn = x.asn;
  origin = x.origin;
  type = x.type_name;
  token = x.token;
  payload = [];
  extra_data = [];
}

read-IsRead : IsRead read
read-IsRead = record { token = λ x. refl; host = λ x. refl; type = λ x. refl; origin = λ x. refl }

-- The host of the only URL there is.
one_host :
    (u : Url)
    → parsers.parse_url (codes "h") ≡ some u
    → header_host parsers.net (some u) ≡ some (codes "a")
unfolding header_host has_byte
one_host u e = rw (← some_inj e) refl

abbrev header : HttpHeaderResult
header = record {
  url = codes "h";
  response_header = [];
  redirects = [];
  error = [];
  status_code = 200;
}

suggestion-published_example :
    (u : Url) × (p2 : PreparedSample) × (s2 : Server) × (s3 : Server) × (t : Session.Sample)
    × (parsers.parse_url (trim_space asked.url) ≡ some u)
    × (work central (some address) 5 no_prepared opened ≡ some (p2, s2))
    × (store_sample parsers clients (some (record { sample = some sample; client_addr = [] })) s2
        ≡ some (json true, s3))
    × (analyze parsers.net (λ _. some header) (get_session_samples read (codes "t") s3.samples)
        ≡ published t)
    × (t.host ≡ u.host)
    × (t.token ≡ codes "t")
suggestion-published_example =
    suggestion-published central (some (codes "t")) 3 5 asked answered empty opened (some address)
      no_prepared (codes "a") (λ _. []) sample [] address 42 read (λ _. some header) opened_runs
      refl (cc) refl tt (λ u e. one_host u e) (λ m. refl) (λ x. refl) refl refl refl refl
      (unfold find_asn in refl) read-IsRead (λ y e. (header, refl))

abbrev row : Str → Str → Session.Sample
row origin type = record {
  id = 1;
  host = codes "a";
  country_code = codes "SE";
  asn = 42;
  origin = origin;
  type = type;
  token = codes "t";
  payload = [];
  extra_data = [];
}

-- What is there when the header of the central server is seen, and what comes after it.
abbrev judged : List Session.Sample
judged =
    row (codes "Central") (codes "NewClientToken") ∷ row (codes "Central") (codes "HTTPHeader") ∷ []

abbrev later : List Session.Sample
later = row (codes "Client") (codes "HTTPHeader") ∷ []

late-unjudged_example :
    (analyze parsers.net (λ _. some header) judged ≡ Session.aborted)
    × All
        (λ k. k ≢ codes "t")
        (tick (some later) true (record { last_id = 0; last_persisted_id = 0 })).1
late-unjudged_example =
    late-unjudged parsers.net (λ _. some header) (codes "t") judged later true
      (record { last_id = 0; last_persisted_id = 0 }) (unfold str_eq in refl) ((λ e. refl), tt)
