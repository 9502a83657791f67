-- ===== src/Central/Measure.antt =====
-- pkg/measure: the measurements that are made of a suggested URL, and their results. What the network gives,
-- and whether it takes too long, are arguments.
use alkasir.Base.{ℕ, Bool, ◌||◌, ◌==◌, Option, none, some, List, [], ◌∷◌, Str, codes, if◌then◌else◌}
use alkasir.Base.Dict.{Dict}
use alkasir.Shared.Validator.{Net, Url, has_byte}
use alkasir.Central.Analysis.Score.{Redirect, HttpHeaderResult}

-- DNSQuery with its two fields, and HTTPHeader.
pub data Measurer : Type 0 where
  dns_query : Str → Str → Measurer
  http_header : Str → Measurer

-- The host without its port; empty where there is a colon and nothing can be split off.
unfoldable pub measured_host : Net → Str → Str
measured_host net host =
    if has_byte b':' host then elim (net.split_host_port host) [ none ↦ [] | some h ↦ h ] else host

-- The end of DefaultMeasurements, for a URL that was parsed and accepted.
unfoldable pub measurers : Net → Str → Url → List Measurer
unfolding measured_host
measurers net url u =
    dns_query (measured_host net u.host) []
    ∷ dns_query (measured_host net u.host) (codes "8.8.8.8:53")
    ∷ http_header url
    ∷ []

pub record DnsQueryResult : Type 0 where
  pub addrs : List Str
  pub error : Str
  pub hostname : Str
  pub resolver : Str

pub data Lookup : Type 0 where
  found : List Str → Lookup
  failed : Str → Lookup
  late : Lookup

-- What a round trip of the client gives: an error, or a response with its headers.
pub data RoundTrip : Type 0 where
  broken : RoundTrip
  response : Str → ℕ → Dict Str → RoundTrip

-- The round trips, and what `client.Get` gives in the end.
pub data Fetch : Type 0 where
  arrived : List RoundTrip → ℕ → Dict Str → Fetch
  refused : Str → Fetch
  timed_out : Fetch

pub record Network : Type 0 where
  pub dns : Str → Str → Lookup
  pub http : Str → Fetch

-- RoundTrip of redirectRecorder.
unfoldable pub is_redirect : ℕ → Bool
is_redirect code = code == 301 || code == 302 || code == 303 || code == 307

unfoldable pub record_redirects : List RoundTrip → List Redirect
unfolding is_redirect
record_redirects [] = []
record_redirects (broken ∷ rest) = record_redirects rest
record_redirects (response url code header ∷ rest) =
    let redirects = record_redirects rest in
    if is_redirect code
    then record { status_code = code; header = header; url = url } ∷ redirects
    else redirects

-- `"timeout: " + timeout.String()` for the timeout that is always taken.
abbrev pub timeout_text : Str
timeout_text = codes "timeout: 45s"

unfoldable pub measure_dns : Network → Str → Str → DnsQueryResult
measure_dns w hostname resolver = elim (w.dns hostname resolver) [
  | found addrs ↦ record { addrs = addrs; error = []; hostname = hostname; resolver = resolver }
  | failed e ↦ record { addrs = []; error = e; hostname = hostname; resolver = resolver }
  | late ↦ record { addrs = []; error = timeout_text; hostname = hostname; resolver = resolver }
]

abbrev failed_header : Str → Str → HttpHeaderResult
failed_header url e = record {
  url = url;
  response_header = [];
  redirects = [];
  error = e;
  status_code = 0;
}

unfoldable pub measure_header : Network → Str → HttpHeaderResult
unfolding record_redirects
measure_header w url = elim (w.http url) [
  | arrived trips code header ↦ record {
    url = url;
    response_header = header;
    redirects = record_redirects trips;
    error = [];
    status_code = code;
  }
  | refused e ↦ failed_header url e
  | timed_out ↦ failed_header url timeout_text
]

pub data Measurement : Type 0 where
  dns_result : DnsQueryResult → Measurement
  header_result : HttpHeaderResult → Measurement

-- Neither of the two gives an error.
unfoldable pub measure : Network → Measurer → Measurement
unfolding measure_dns measure_header
measure w (dns_query hostname resolver) = dns_result (measure_dns w hostname resolver)
measure w (http_header url) = header_result (measure_header w url)

abbrev pub type_name : Measurement → Str
type_name (dns_result _) = codes "DNSQuery"
type_name (header_result _) = codes "HTTPHeader"

-- Host of HTTPHeaderResult for a URL as it was parsed; `none` is `lg.Fatalf`, which ends the program.
unfoldable pub header_host : Net → Option Url → Option Str
header_host net none = none
header_host net (some u) = if has_byte b':' u.host then net.split_host_port u.host else some u.host

unfoldable pub host : Net → (Str → Option Url) → Measurement → Option Str
unfolding header_host
host net parse (dns_result r) = some r.hostname
host net parse (header_result r) = header_host net (parse r.url)
