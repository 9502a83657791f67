-- ===== src/Client/Hosts/Tests.antt =====
-- Small lists of hosts.
use alkasir.Base.{◌≡◌, refl, [], ◌∷◌, codes, str_eq}
use alkasir.Base.Trim.{trim_space}
use alkasir.Client.Hosts.{HostsFile, contains, add}

abbrev listed : HostsFile
listed = record {
  name = codes "local-blocked";
  hosts = codes "a.se" ∷ codes "b.se" ∷ [];
  country_code = codes "SE";
}

add_trims : (add (codes " c.se ") listed).hosts ≡ codes "a.se" ∷ codes "b.se" ∷ codes "c.se" ∷ []
unfolding add contains trim_space str_eq
add_trims = refl
