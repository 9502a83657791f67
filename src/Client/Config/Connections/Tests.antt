-- ===== src/Client/Config/Connections/Tests.antt =====
-- A small update: one connection is removed, one added and one protected.
use mathlib.Core.List.{Perm}
use mathlib.Core.List.Perm
use alkasir.Base.{◌≡◌, refl, true, false, Option, some, List, [], ◌∷◌, Str, codes, str_eq}
use alkasir.Base.Dict.{Dict, lookup, insert, erase, values, IsKeyed}
use alkasir.Shared.Connection.{Connection}
use alkasir.Client.Config.Connections.{
  ModifyConnections, index, remove_all, add_all, protect_all, updated, update,
}
use alkasir.Client.Config.Connections.Laws.{update-wanted, wanted}

abbrev conn : Str → Connection
conn id = record {
  transport = codes "obfs4";
  secret = codes "s";
  addr = codes "192.0.2.1:443";
  disabled = false;
  protected = false;
  id = id;
}

-- A text is decoded as the connection that has it as id.
abbrev by_id : Str → Option Connection
by_id s = some (conn s)

abbrev small : ModifyConnections
small = record {
  connections = conn (codes "a") ∷ conn (codes "b") ∷ [];
  removals = codes "a" ∷ codes "x" ∷ [];
  additions = codes "b" ∷ codes "c" ∷ [];
  protections = codes "b" ∷ codes "y" ∷ [];
}

abbrev guarded : Str → Connection
guarded id = record (conn id) { protected = true }

abbrev result : List Connection
result = guarded (codes "b") ∷ guarded (codes "c") ∷ []

update-small : update values by_id small ≡ some result
unfolding update updated index remove_all add_all protect_all lookup insert erase str_eq
update-small = refl

update-wanted_example :
    (d : Dict Connection) × IsKeyed d
    × Perm result (values d)
    × ((id : Str) → lookup id d ≡ wanted by_id small id)
update-wanted_example =
    update-wanted values by_id small result (λ d. Perm.refl (values d)) update-small
