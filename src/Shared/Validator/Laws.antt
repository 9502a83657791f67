-- ===== src/Shared/Validator/Laws.antt =====
-- Which addresses and hosts pass.
use alkasir.Base.{
  ℕ, ◌<◌, ◌≡◌, ◌≢◌, Bool, true, none, some, [], arith, Str, codes, str_eq, str_eq_iff, ◌==◌, ltb,
  leb, not, ◌&&◌, ◌||◌,
}
use alkasir.Base.Trim.{trim_space}
use alkasir.Shared.Validator.{
  v4, Net, Url, quad, is_loopback, is_zero, net_contains, in_nets, accepted_ip, only_host,
  accepted_host, accepted_url, accepted_port, is_listed,
}

-- The private, local and zero addresses, byte by byte.
abbrev pub is_private : ℕ → ℕ → ℕ → ℕ → Bool
is_private a b c d =
    (a == 10)
    || (a == 127)
    || ((a == 172) && leb 16 b && ltb b 32)
    || ((a == 192) && (b == 168))
    || ((a == 0) && (b == 0) && (c == 0) && (d == 0))

-- For four bytes, the IPv4 address a.b.c.d is accepted exactly if it is not 0.0.0.0, not in
-- 10.0.0.0/8, 127.0.0.0/8 or 192.168.0.0/16, and not from 172.16.0.0 to 172.31.255.255.
pub accepted_ip-v4 :
    (a b c d : ℕ)
    → a < 256
    → b < 256
    → c < 256
    → d < 256
    → accepted_ip (v4 (quad a b c d)) ≡ not (is_private a b c d)
unfolding accepted_ip is_loopback is_zero in_nets net_contains
accepted_ip-v4 a b c d ha hb hc hd = ground arith

-- A web address whose host is not blank and, without its port, is not localhost but is read as
-- an IPv4 address, is accepted exactly if its scheme is http or https and the address is none of
-- the private ones.
pub accepted_url-v4 :
    (net : Net) (u : Url) (a b c d : ℕ)
    → a < 256
    → b < 256
    → c < 256
    → d < 256
    → trim_space u.host ≢ []
    → only_host net u.host ≢ codes "localhost"
    → net.parse_ip (only_host net u.host) ≡ some (v4 (quad a b c d))
    → accepted_url net u ≡ (
        (str_eq u.scheme (codes "http") || str_eq u.scheme (codes "https"))
        && not (is_private a b c d))
unfolding accepted_url accepted_host
accepted_url-v4 net u a b c d ha hb hc hd visible named parsed = ground (
  arith,
  accepted_ip-v4 a b c d ha hb hc hd,
  str_eq_iff (trim_space u.host) [],
  str_eq_iff (only_host net u.host) (codes "localhost"),
)

-- A host that is not blank and not localhost, that cannot be split into host and port, and that
-- is no address as it stands, is accepted.
pub accepted_host_unsplit :
    (net : Net) (host : Str)
    → trim_space host ≢ []
    → host ≢ codes "localhost"
    → net.split_host_port host ≡ none
    → net.parse_ip host ≡ none
    → accepted_host net host ≡ true
unfolding accepted_host only_host
accepted_host_unsplit net host visible named unsplit unparsed =
    ground (arith, str_eq_iff (trim_space host) [], str_eq_iff host (codes "localhost"))

-- Every port above 6669 is accepted.
pub accepted_port_high : (p : ℕ) → 6669 < p → accepted_port p ≡ true
unfolding accepted_port is_listed
accepted_port_high p h = ground arith
