-- ===== src/Central/Suggestions/Sending/Versions.antt =====
-- pkg/central/client/client.go: CheckBinaryUpgrade.
use alkasir.Base.{not, none, some, ◌==◌, if◌then◌else◌}
use alkasir.Shared.Version.{Versions, Upgrade, UpgradeRequest, is_greater}
use alkasir.Central.Suggestions.Sending.{
  Post, failed, response, Failure, request, decoding, current_version, new_version, older, status,
}

pub data Checked : Type 0 where
  found : Upgrade → Checked
  not_found : Checked
  error : Failure → Checked

-- The comparison of the two versions.
unfoldable pub compare_versions : {V : Type 0} → Versions V → UpgradeRequest → Upgrade → Checked
compare_versions vs req res = elim (vs.parse req.from_version) [
  | none ↦ error current_version
  | some current ↦ elim (vs.parse res.version) [
    | none ↦ error new_version
    | some new ↦ if is_greater (vs.compare current new) then error older else found res
  ]
]

unfoldable pub check_binary_upgrade :
    {V : Type 0} → Versions V → UpgradeRequest → Post Upgrade → Checked
unfolding compare_versions
check_binary_upgrade vs req failed = error request
check_binary_upgrade vs req (response code body) =
    if code == 404
    then not_found
    else if not (code == 200)
    then error (status code)
    else elim body [ none ↦ error decoding | some res ↦ compare_versions vs req res ]
