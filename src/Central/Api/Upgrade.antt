-- ===== src/Central/Api/Upgrade.antt =====
-- pkg/central/api.go: GetUpgrade. `database` is what the query for an artifact gives: an error, or an
-- upgrade where there is one.
pub mod Offers
mod Tests
use alkasir.Base.{ℕ, Bool, true, false, ◌||◌, Option, none, some, [], Str, str_eq, if◌then◌else◌}
use alkasir.Shared.Version.{Versions, Upgrade, UpgradeRequest, is_less, is_equal}
use alkasir.Central.Api.{
  Fault, bad_payload, no_version, invalid_version, no_artifact, not_found, database, Reply,
  api_error, json,
}

-- From the version of the request on.
unfoldable pub offer :
    {V : Type 0} → Versions V → (Str → Option (Option Upgrade)) → UpgradeRequest → V → Reply Upgrade
offer vs query req v =
    if str_eq req.artifact [] then api_error 500 no_artifact else elim (query req.artifact) [
      | none ↦ api_error 500 database
      | some none ↦ api_error 404 not_found
      | some (some res) ↦ elim (vs.parse res.version) [
        | none ↦ api_error 500 invalid_version
        | some server ↦
            if is_less (vs.compare server v) || is_equal (vs.compare server v)
            then api_error 404 not_found
            else json res
      ]
    ]

unfoldable pub get_upgrade :
    {V : Type 0}
    → Versions V
    → (Str → Option (Option Upgrade))
    → Option UpgradeRequest
    → Reply Upgrade
unfolding offer
get_upgrade vs query none = api_error 500 bad_payload
get_upgrade vs query (some req) =
    if str_eq req.from_version []
    then api_error 500 no_version
    else elim (vs.parse req.from_version) [
      | none ↦ api_error 500 invalid_version
      | some v ↦ offer vs query req v
    ]
