-- ===== src/Shared/Validator.antt =====
-- pkg/shared/urlvalidator.go: which addresses may be suggested. An address is a number, an IPv4
-- address also when it is written inside IPv6; how texts of hosts and addresses are read belongs to
-- Go's net package and is a parameter. Logging is left out.
use alkasir.Base.{
  ℕ, ◌/◌, ◌^◌, ◌*◌, ◌+◌, Bool, true, false, Option, none, some, List, [], ◌∷◌, ◌==◌, Str, codes,
  str_eq, not, ◌||◌, ◌&&◌, if◌then◌else◌,
}
use alkasir.Base.Trim.{trim_space}
pub mod Laws
mod Tests

pub data Ip : Type 0 where
  v4 v6 : ℕ → Ip

-- A network of IPv4 addresses: those that share the first bits with the base.
pub record IpNet : Type 0 where
  pub base : ℕ
  pub host_bits : ℕ

pub record Net : Type 0 where
  -- `net.SplitHostPort`, the host alone.
  pub split_host_port : Str → Option Str
  -- `net.ParseIP`
  pub parse_ip : Str → Option Ip

-- An IPv4 address from its four bytes.
abbrev pub quad : ℕ → ℕ → ℕ → ℕ → ℕ
quad a b c d = ((a * 256 + b) * 256 + c) * 256 + d

unfoldable pub is_loopback : Ip → Bool
is_loopback (v4 a) = a / 16777216 == 127
is_loopback (v6 a) = a == 1

unfoldable pub is_zero : Ip → Bool
is_zero (v4 a) = a == 0
is_zero (v6 a) = a == 0

-- `v.Contains(ip)`
unfoldable pub net_contains : IpNet → Ip → Bool
net_contains n (v4 a) = a / n.host_bits == n.base / n.host_bits
net_contains n (v6 a) = false

abbrev pub disallowed_nets : List IpNet
disallowed_nets =
    record { base = quad 10 0 0 0; host_bits = 16777216 }
    ∷ record { base = quad 172 16 0 0; host_bits = 1048576 }
    ∷ record { base = quad 192 168 0 0; host_bits = 65536 }
    ∷ record { base = quad 127 0 0 0; host_bits = 16777216 }
    ∷ []

unfoldable pub in_nets : List IpNet → Ip → Bool
in_nets [] ip = false
in_nets (n ∷ ns) ip = if net_contains n ip then true else in_nets ns ip

unfoldable pub accepted_ip : Ip → Bool
accepted_ip ip = if is_loopback ip || is_zero ip then false else not (in_nets disallowed_nets ip)

unfoldable pub has_byte : ℕ → Str → Bool
has_byte c [] = false
has_byte c (d ∷ s) = if d == c then true else has_byte c s

-- The host without its port, where there is one that can be split off.
unfoldable pub only_host : Net → Str → Str
only_host net host =
    if has_byte b':' host
    then elim (net.split_host_port host) [ none ↦ host | some h ↦ h ]
    else host

unfoldable pub accepted_host : Net → Str → Bool
accepted_host net host =
    if str_eq (trim_space host) []
    then false
    else if str_eq (only_host net host) (codes "localhost")
    then false
    else elim (net.parse_ip (only_host net host)) [ none ↦ true | some ip ↦ accepted_ip ip ]

-- The part of `url.URL` that is looked at.
-- `url.URL`; the user as it is written, empty where there is none.
pub record Url : Type 0 where
  pub scheme : Str
  pub opaque : Str
  pub user : Str
  pub host : Str
  pub path : Str
  pub raw_path : Str
  pub raw_query : Str
  pub fragment : Str

-- The root of a site.
abbrev pub root_url : Str → Str → Url
root_url scheme host = record {
  scheme = scheme;
  opaque = [];
  user = [];
  host = host;
  path = codes "/";
  raw_path = [];
  raw_query = [];
  fragment = [];
}

unfoldable pub accepted_url : Net → Url → Bool
accepted_url net u =
    if str_eq u.scheme (codes "http") || str_eq u.scheme (codes "https")
    then accepted_host net u.host
    else false

abbrev pub bad_ports : List ℕ
bad_ports =
    1 ∷ 7 ∷ 9 ∷ 11 ∷ 13 ∷ 15 ∷ 17 ∷ 19 ∷ 20 ∷ 21 ∷ 22 ∷ 23 ∷ 25 ∷ 37 ∷ 42 ∷ 43 ∷ 53 ∷ 77 ∷ 79 ∷ 87
    ∷ 95 ∷ 101 ∷ 102 ∷ 103 ∷ 104 ∷ 109 ∷ 110 ∷ 111 ∷ 113 ∷ 115 ∷ 117 ∷ 119 ∷ 123 ∷ 135 ∷ 139 ∷ 143
    ∷ 179 ∷ 389 ∷ 465 ∷ 512 ∷ 513 ∷ 514 ∷ 515 ∷ 526 ∷ 530 ∷ 531 ∷ 532 ∷ 540 ∷ 556 ∷ 563 ∷ 587 ∷ 601
    ∷ 636 ∷ 993 ∷ 995 ∷ 2049 ∷ 3659 ∷ 4045 ∷ 6000 ∷ 6665 ∷ 6666 ∷ 6667 ∷ 6668 ∷ 6669 ∷ []

unfoldable pub is_listed : ℕ → List ℕ → Bool
is_listed p [] = false
is_listed p (q ∷ qs) = if q == p then true else is_listed p qs

unfoldable pub accepted_port : ℕ → Bool
accepted_port port = not (is_listed port bad_ports)
