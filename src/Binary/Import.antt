-- ===== src/Binary/Import.antt =====
-- insertUpgrades of cmd/alkasir-admin/alkasir-admin.go, with GetUpgrade and InsertUpgrades of
-- pkg/central/db/postgres.go: how created patches come into the table of upgrades. The table is the list of its
-- rows; which rows can be inserted and the time are arguments. A query that fails is left out, and so are files
-- that cannot be read. The order in which a map is gone through stands for nothing.
pub mod Unique
use alkasir.Base.{
  ℕ, Bool, true, false, not, ◌&&◌, ◌||◌, Option, none, some, List, [], ◌∷◌, ◌++◌, Str, str_eq,
  codes, if◌then◌else◌,
}
use alkasir.Base.Dict.{Dict, insert, values}
use alkasir.Shared.Version.{Upgrade}
use alkasir.Binary.Patch.{CreatePatchResult}

pub record Row : Type 0 where
  pub entry : Upgrade
  pub published : Bool

pub record GetUpgradeQuery : Type 0 where
  pub artifact : Str
  pub version : Str
  pub also_unpublished : Bool

-- The conditions of the query.
unfoldable pub selects : GetUpgradeQuery → Row → Bool
selects q r =
    str_eq r.entry.artifact q.artifact
    && (q.also_unpublished || r.published)
    && (str_eq q.version [] || str_eq r.entry.version q.version)

unfoldable pub get_upgrade : GetUpgradeQuery → List Row → Option Upgrade
unfolding selects
get_upgrade q [] = none
get_upgrade q (r ∷ rows) = if selects q r then some r.entry else get_upgrade q rows

abbrev pub query_of : CreatePatchResult → GetUpgradeQuery
query_of c = record { artifact = c.artifact; version = c.new_version; also_unpublished = true }

abbrev pub entry_of : CreatePatchResult → Upgrade
entry_of c = record {
  artifact = c.artifact;
  version = c.new_version;
  created_at = 0;
  sha256_sum = c.sha256_sum;
  ed25519_signature = c.ed25519_signature;
}

-- Whether the table has the version already.
unfoldable pub is_imported : List Row → CreatePatchResult → Bool
unfolding get_upgrade
is_imported table c = elim (get_upgrade (query_of c) table) [
  | none ↦ false
  | some um ↦ str_eq um.artifact c.artifact && str_eq um.version c.new_version
]

abbrev pub unique_key : Upgrade → Str
unique_key u = u.artifact ++ codes "---" ++ u.version

-- The loop over the files, and the map that the entries are put into after it.
unfoldable pub collect : List Row → List CreatePatchResult → Dict Upgrade → Dict Upgrade
unfolding is_imported
collect table [] d = d
collect table (c ∷ cs) d =
    collect table cs
      (if is_imported table c then d else insert (unique_key (entry_of c)) (entry_of c) d)

-- The statements run outside of the transaction, so that no rollback takes a row away. New rows are not
-- published.
unfoldable pub insert_upgrades : (Upgrade → Bool) → ℕ → List Upgrade → List Row → Bool × List Row
insert_upgrades can_insert now [] table = (true, table)
insert_upgrades can_insert now (u ∷ us) table =
    let rest =
      insert_upgrades can_insert now us
        (table ++ (record { entry = record u { created_at = now }; published = false }) ∷ []) in
    if not (can_insert u) then (false, table) else rest

unfoldable pub import_upgrades :
    (Upgrade → Bool) → ℕ → List CreatePatchResult → List Row → Bool × List Row
unfolding collect insert_upgrades
import_upgrades can_insert now results table =
    insert_upgrades can_insert now (values (collect table results [])) table
