-- ===== src/Client/Config/Connections/Keyed.antt =====
-- The map of connections never lists an id twice.
use alkasir.Base.{◌≡◌, inl, inr, true, Option, none, some, List, [], ◌∷◌, arith, Str, Option-cases}
use alkasir.Base.Dict.{Dict, lookup, insert, erase, IsKeyed, insert-IsKeyed, erase-IsKeyed}
use alkasir.Shared.Connection.{Connection}
use alkasir.Client.Config.Connections.{index, remove_all, add_all, protect_all}

abbrev pub with_added : Connection → Dict Connection → Dict Connection
with_added c d = elim (lookup c.id d) [
  | some _ ↦ d
  | none ↦ insert c.id (record c { protected = true }) d
]

abbrev pub with_protected : Str → Dict Connection → Dict Connection
with_protected x d = elim (lookup x d) [
  | none ↦ d
  | some c ↦ insert x (record c { protected = true }) d
]

pub index-IsKeyed : (cs : List Connection) (d : Dict Connection) → IsKeyed d → IsKeyed (index cs d)
unfolding index
index-IsKeyed [] d k = k
index-IsKeyed (c ∷ cs) d k = index-IsKeyed cs (insert c.id c d) (insert-IsKeyed c.id c d k)

pub remove_all-IsKeyed :
    (xs : List Str) (d : Dict Connection) → IsKeyed d → IsKeyed (remove_all xs d)
unfolding remove_all
remove_all-IsKeyed [] d k = k
remove_all-IsKeyed (x ∷ xs) d k = elim (Option-cases (lookup x d)) [
  | inl absent ↦ rw absent (remove_all-IsKeyed xs d k)
  | inr (c, found) ↦ rw found (remove_all-IsKeyed xs (erase x d) (erase-IsKeyed x d k))
]

with_added-IsKeyed : (c : Connection) (d : Dict Connection) → IsKeyed d → IsKeyed (with_added c d)
with_added-IsKeyed c d k = either (lookup c.id d)
  where
    either :
        (o : Option Connection)
        → IsKeyed (elim o [ some _ ↦ d | none ↦ insert c.id (record c { protected = true }) d ])
    either none = insert-IsKeyed c.id (record c { protected = true }) d k
    either (some _) = k

pub add_all-IsKeyed :
    (decode : Str → Option Connection) (vs : List Str) (d d' : Dict Connection)
    → add_all decode vs d ≡ some d'
    → IsKeyed d
    → IsKeyed d'
unfolding add_all
add_all-IsKeyed decode [] d d' e k = let same : d ≡ d' = cc in rw same at k
add_all-IsKeyed decode (v ∷ vs) d d' e k = elim (Option-cases (decode v)) [
  | inl failed ↦ ground arith
  | inr (c, found) ↦
      add_all-IsKeyed decode vs (with_added c d) d' (rw (found, add_all) at e)
        (with_added-IsKeyed c d k)
]

pub protect_all-IsKeyed :
    (xs : List Str) (d : Dict Connection) → IsKeyed d → IsKeyed (protect_all xs d)
unfolding protect_all
protect_all-IsKeyed [] d k = k
protect_all-IsKeyed (x ∷ xs) d k = elim (Option-cases (lookup x d)) [
  | inl absent ↦ rw absent (protect_all-IsKeyed xs d k)
  | inr (c, found) ↦ rw found (
      protect_all-IsKeyed xs (insert x (record c { protected = true }) d)
        (insert-IsKeyed x (record c { protected = true }) d k))
]
