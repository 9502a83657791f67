-- ===== src/Shared/Validator/Tests.antt =====
-- Some addresses, with readers that know just those.
use alkasir.Base.{◌≡◌, refl, true, false, none, some, codes, str_eq, if◌then◌else◌}
use alkasir.Base.Trim.{trim_space}
use alkasir.Shared.Validator.{
  v4, v6, Net, Url, root_url, quad, has_byte, only_host, accepted_ip, accepted_host, accepted_url,
  is_loopback, is_zero, in_nets, net_contains,
}

abbrev net : Net
net = record {
  split_host_port = λ s. if str_eq s (codes "8.8.8.8:80") then some (codes "8.8.8.8") else none;
  parse_ip = λ s.
      if str_eq s (codes "8.8.8.8")
      then some (v4 (quad 8 8 8 8))
      else if str_eq s (codes "::1")
      then some (v6 1)
      else none;
}

abbrev url : Url
url = root_url (codes "http") (codes "8.8.8.8:80")

accepted_web : accepted_url net url ≡ true
unfolding accepted_url accepted_host only_host has_byte str_eq trim_space accepted_ip is_loopback
    is_zero in_nets net_contains
accepted_web = refl

loopback : accepted_ip (v6 1) ≡ false
unfolding accepted_ip is_loopback
loopback = refl
