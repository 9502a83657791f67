-- ===== src/Client/Config/Connections.antt =====
-- pkg/client/internal/config/updates.go, modifyConnections: the list of connections is edited
-- through a map from ids. `decode` is shared.DecodeConnection, and a failed decoding is the end of
-- the program (`none`). The order in which Go ranges over a map is the parameter `range`.
pub mod Keyed
pub mod Laws
mod Tests
use alkasir.Base.{Bool, true, Option, none, some, List, [], ◌∷◌, Str}
use alkasir.Base.Dict.{Dict, lookup, insert, erase}
use alkasir.Shared.Connection.{Connection}

pub record ModifyConnections : Type 0 where
  pub connections : List Connection
  pub removals : List Str
  pub additions : List Str
  pub protections : List Str

-- `conns[connection.ID] = connection` for each.
unfoldable pub index : List Connection → Dict Connection → Dict Connection
index [] conns = conns
index (c ∷ cs) conns = index cs (insert c.id c conns)

unfoldable pub remove_all : List Str → Dict Connection → Dict Connection
remove_all [] conns = conns
remove_all (id ∷ ids) conns =
    remove_all ids (elim (lookup id conns) [ none ↦ conns | some _ ↦ erase id conns ])

unfoldable pub add_all :
    (Str → Option Connection) → List Str → Dict Connection → Option (Dict Connection)
add_all decode [] conns = some conns
add_all decode (v ∷ vs) conns = elim (decode v) [
  | none ↦ none
  | some conn ↦ add_all decode vs (elim (lookup conn.id conns) [
    | some _ ↦ conns
    | none ↦ insert conn.id (record conn { protected = true }) conns
  ])
]

unfoldable pub protect_all : List Str → Dict Connection → Dict Connection
protect_all [] conns = conns
protect_all (id ∷ ids) conns = protect_all ids (elim (lookup id conns) [
  | none ↦ conns
  | some c ↦ insert id (record c { protected = true }) conns
])

-- The map at the end of Update.
unfoldable pub updated : (Str → Option Connection) → ModifyConnections → Option (Dict Connection)
updated decode m =
    elim (add_all decode m.additions (remove_all m.removals (index m.connections []))) [
      | none ↦ none
      | some conns ↦ some (protect_all m.protections conns)
    ]

unfoldable pub update :
    (Dict Connection → List Connection)
    → (Str → Option Connection)
    → ModifyConnections
    → Option (List Connection)
update range decode m = elim (updated decode m) [ none ↦ none | some conns ↦ some (range conns) ]
