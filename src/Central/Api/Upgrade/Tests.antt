-- ===== src/Central/Api/Upgrade/Tests.antt =====
-- Versions that are told apart by their length.
use alkasir.Base.{◌≡◌, refl, Option, some, [], ◌∷◌, Str, str_eq, codes}
use alkasir.Shared.Version.{
  Versions, Upgrade, UpgradeRequest, Order, less, equal, greater, IsAntisymmetric,
}
use alkasir.Central.Api.Upgrade.{get_upgrade, offer}
use alkasir.Central.Api.Upgrade.Offers.{received_as, get_upgrade-found}
use alkasir.Central.Suggestions.Sending.Versions.{found, check_binary_upgrade}

by_length : Str → Str → Order
by_length [] [] = equal
by_length [] (_ ∷ _) = less
by_length (_ ∷ _) [] = greater
by_length (_ ∷ s) (_ ∷ t) = by_length s t

abbrev lengths : Versions Str
unfolding by_length
lengths = record { parse = λ s. some s; compare = by_length }

lengths-IsAntisymmetric : IsAntisymmetric lengths
unfolding by_length
lengths-IsAntisymmetric [] [] = refl
lengths-IsAntisymmetric [] (_ ∷ _) = refl
lengths-IsAntisymmetric (_ ∷ _) [] = refl
lengths-IsAntisymmetric (_ ∷ s) (_ ∷ t) = lengths-IsAntisymmetric s t

abbrev newest : Upgrade
newest = record {
  artifact = codes "alkasir-gui";
  version = codes "xxx";
  created_at = 1;
  sha256_sum = [];
  ed25519_signature = [];
}

abbrev asked : UpgradeRequest
asked = record { artifact = codes "alkasir-gui"; from_version = codes "xx" }

abbrev query : Str → Option (Option Upgrade)
query _ = some (some newest)

get_upgrade-found_example :
    (check_binary_upgrade lengths asked (received_as (get_upgrade lengths query (some asked)))
      ≡ found newest)
    × ((v server : Str) × (lengths.parse asked.from_version ≡ some v)
        × (lengths.parse newest.version ≡ some server)
        × (lengths.compare server v ≡ greater))
unfolding get_upgrade offer by_length str_eq
get_upgrade-found_example =
    get_upgrade-found lengths query asked newest lengths-IsAntisymmetric refl
