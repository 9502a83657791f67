-- ===== src/Central/Measurements/Tests.antt =====
-- A URL with an IPv6 address and no port.
use alkasir.Base.{◌≡◌, refl, true, none, some, [], ◌∷◌, codes, str_eq}
use alkasir.Base.Trim.{trim_space}
use alkasir.Shared.Validator.{root_url, accepted_url, accepted_host, only_host, has_byte}
use alkasir.Central.Api.{Server, Clients}
use alkasir.Central.Api.Samples.{Parsers, checked_url}
use alkasir.Central.Measure.{Network, late, timed_out}
use alkasir.Central.Measurements.{Central, first_prepared, work}
use alkasir.Central.Measurements.Stored.{work-ends}

abbrev parsers : Parsers
parsers = record {
  parse_url = λ _. some (root_url (codes "http") (codes "[1::1]"));
  net = record { split_host_port = λ _. none; parse_ip = λ _. none };
  country_codes = [];
}

abbrev clients : Clients
clients = record {
  ip2asn = λ _. none;
  ip2country_code = λ _. [];
  ip2city = λ _. 0;
  is_url_allowed = λ _ _. some true;
  can_insert = λ _. true;
  can_insert_simple = λ _. true;
  blocked_hosts = λ _ _. none;
}

abbrev network : Network
network = record { dns = λ _ _. late; http = λ _. timed_out }

abbrev central : Central
central = record { parsers = parsers; clients = clients; network = network; marshal = λ _. some [] }

abbrev server : Server
server = record {
  tokens = record { sessions = []; sessions_active = 0; sessions_total = 0 };
  samples = [];
  simple_samples = [];
  queued = (codes "t", codes "http://[1::1]/") ∷ [];
}

work-ends_example : work central none 0 (first_prepared clients none 0) server ≡ none
work-ends_example =
    work-ends central none 0 (first_prepared clients none 0) server (codes "t")
      (codes "http://[1::1]/") [] (λ _. []) (root_url (codes "http") (codes "[1::1]")) refl
      (unfold checked_url accepted_url accepted_host only_host has_byte trim_space str_eq in refl)
      (unfold has_byte in refl) refl (λ m. refl)
