-- ===== src/Binary/Check.antt =====
-- pkg/client/upgradebin.go: upgradeBinaryCheck. What the network gives, the paths of URLs and the exchange of
-- the program's file are arguments. Logging is left out.
pub mod Arrival
pub mod Delivery
use alkasir.Base.{Bool, true, false, not, Option, none, some, List, [], ◌∷◌, Str, if◌then◌else◌}
use alkasir.Shared.Version.{Versions, Upgrade, UpgradeRequest}
use alkasir.Central.Suggestions.Sending.{Post, Failure}
use alkasir.Central.Suggestions.Sending.Versions.{found, not_found, error, check_binary_upgrade}
use alkasir.Binary.Keys
use alkasir.Binary.Keys.{Crypto, KeyError}
use alkasir.Binary.Options.{Options, Apply, new_updater_options}

-- What the function meets: NewRestClient, the answer to CheckBinaryUpgrade, NewTransportHTTPClient, whether
-- the base URL can be parsed, and what there is below it.
pub record World : Type 0 where
  pub has_client : Bool
  pub answer : Post Upgrade
  pub has_transport : Bool
  pub has_base : Bool
  pub download : List Str → Option Str

pub data Outcome : Type 0 where
  success no_client no_transport no_base not_downloaded : Outcome
  not_checked : Failure → Outcome
  no_options : KeyError → Outcome

-- A file that cannot be exchanged is not an error.
unfoldable pub exchange : Apply → Options → Str → Str → Str
exchange apply o diff file = elim (apply o diff file) [ none ↦ file | some new ↦ new ]

-- From an upgrade that was found on: what comes of it, and the file of the program.
unfoldable pub take_upgrade :
    Crypto → Apply → Str → World → UpgradeRequest → Upgrade → Str → Outcome × Str
unfolding new_updater_options exchange
take_upgrade c apply public_key w req res file =
    if not w.has_transport
    then (no_transport, file)
    else elim (new_updater_options c res public_key) [
      | Keys.error e ↦ (no_options e, file)
      | Keys.ok o ↦
          if not w.has_base
          then (no_base, file)
          else elim (w.download (req.artifact ∷ req.from_version ∷ res.version ∷ [])) [
            | none ↦ (not_downloaded, file)
            | some diff ↦ (success, exchange apply o diff file)
          ]
    ]

unfoldable pub upgrade_binary_check :
    {V : Type 0} → Versions V → Crypto → Apply → Str → World → UpgradeRequest → Str → Outcome × Str
unfolding take_upgrade check_binary_upgrade
upgrade_binary_check vs c apply public_key w req file =
    if not w.has_client then (no_client, file) else elim (check_binary_upgrade vs req w.answer) [
      | error e ↦ (not_checked e, file)
      | not_found ↦ (success, file)
      | found res ↦ take_upgrade c apply public_key w req res file
    ]
