-- ===== src/Client/Config/Connections/Laws.antt =====
-- What an update makes of each id.
use mathlib.Core.List.{Perm}
use alkasir.Base.{
  ◌≡◌, refl, ◌∙◌, ap, inl, inr, Bool, true, false, Option, none, some, List, [], ◌∷◌, arith, Str,
  str_eq, str_eq_iff, if◌then◌else◌, Option-cases,
}
use alkasir.Base.Dict.{Dict, lookup, insert, erase, values, lookup-insert, lookup-erase, IsKeyed}
use alkasir.Shared.Connection.{Connection}
use alkasir.Client.Config.Connections.Keyed.{
  with_added, with_protected, index-IsKeyed, remove_all-IsKeyed, add_all-IsKeyed,
  protect_all-IsKeyed,
}
use alkasir.Client.Config.Connections.{
  ModifyConnections, index, remove_all, add_all, protect_all, updated, update,
}

abbrev pub is_among : Str → List Str → Bool
is_among id [] = false
is_among id (x ∷ xs) = if str_eq x id then true else is_among id xs

-- The last connection of the list with the id, or else what was there.
abbrev pub last_with : Str → List Connection → Option Connection → Option Connection
last_with id [] old = old
last_with id (c ∷ cs) old = last_with id cs (if str_eq c.id id then some c else old)

lookup-index :
    (id : Str) (cs : List Connection) (d : Dict Connection)
    → lookup id (index cs d) ≡ last_with id cs (lookup id d)
unfolding index
lookup-index id [] d = refl
lookup-index id (c ∷ cs) d =
    lookup-index id cs (insert c.id c d) ∙ ap (last_with id cs) (lookup-insert c.id id c d)

removed_one :
    (id x : Str) (d : Dict Connection)
    → lookup id (elim (lookup x d) [ none ↦ d | some _ ↦ erase x d ])
      ≡ (if str_eq x id then none else lookup id d)
removed_one id x d = ground (arith, lookup-erase x id d, str_eq_iff x id)

lookup-remove_all :
    (id : Str) (xs : List Str) (d : Dict Connection)
    → lookup id (remove_all xs d) ≡ (if is_among id xs then none else lookup id d)
unfolding remove_all
lookup-remove_all id [] d = refl
lookup-remove_all id (x ∷ xs) d = ground (
  arith,
  lookup-remove_all id xs (elim (lookup x d) [ none ↦ d | some _ ↦ erase x d ]),
  removed_one id x d,
)

-- What stays if something is there, and what is put there if not.
abbrev pub or_else : Option Connection → Option Connection → Option Connection
or_else none new = new
or_else (some c) new = some c

-- The first of the additions that has the id, protected.
abbrev pub first_added : (Str → Option Connection) → Str → List Str → Option Connection
first_added decode id [] = none
first_added decode id (v ∷ vs) =
    let later = first_added decode id vs in
    elim (decode v) [
      | none ↦ none
      | some c ↦ if str_eq c.id id then some (record c { protected = true }) else later
    ]

added_one :
    (id : Str) (c : Connection) (d : Dict Connection)
    → lookup id (with_added c d)
      ≡ or_else
          (lookup id d)
          (if str_eq c.id id then some (record c { protected = true }) else none)
added_one id c d =
    ground (arith, lookup-insert c.id id (record c { protected = true }) d, str_eq_iff c.id id)

lookup-add_all :
    (decode : Str → Option Connection) (id : Str) (vs : List Str) (d d' : Dict Connection)
    → add_all decode vs d ≡ some d'
    → lookup id d' ≡ or_else (lookup id d) (first_added decode id vs)
unfolding add_all
lookup-add_all decode id [] d d' e = ground arith
lookup-add_all decode id (v ∷ vs) d d' e = elim (Option-cases (decode v)) [
  | inl failed ↦ ground arith
  | inr (c, found) ↦ ground (
    arith,
    lookup-add_all decode id vs (with_added c d) d' (rw (found, add_all) at e),
    added_one id c d,
  )
]

abbrev pub protected_if : Bool → Option Connection → Option Connection
protected_if b none = none
protected_if b (some c) = some (if b then record c { protected = true } else c)

protected_one :
    (id x : Str) (d : Dict Connection)
    → lookup id (with_protected x d) ≡ protected_if (str_eq x id) (lookup id d)
protected_one id x d = elim (Option-cases (lookup x d)) [
  | inl absent ↦ ground (arith, str_eq_iff x id)
  | inr (c, found) ↦
      ground (arith, lookup-insert x id (record c { protected = true }) d, str_eq_iff x id)
]

protected_again :
    (a b : Bool) (o : Option Connection)
    → protected_if a (protected_if b o) ≡ protected_if (if b then true else a) o
protected_again a b o = ground arith

lookup-protect_all :
    (id : Str) (xs : List Str) (d : Dict Connection)
    → lookup id (protect_all xs d) ≡ protected_if (is_among id xs) (lookup id d)
unfolding protect_all
lookup-protect_all id [] d = ground arith
lookup-protect_all id (x ∷ xs) d =
    lookup-protect_all id xs (with_protected x d)
    ∙ ap (protected_if (is_among id xs)) (protected_one id x d)
    ∙ protected_again (is_among id xs) (str_eq x id) (lookup id d)

-- What an update should make of an id: the last connection given with it unless it is to be
-- removed, or else the first addition with it; protected if that is asked for.
abbrev pub wanted : (Str → Option Connection) → ModifyConnections → Str → Option Connection
wanted decode m id = protected_if (is_among id m.protections) (
    or_else (if is_among id m.removals then none else last_with id m.connections none)
      (first_added decode id m.additions))

module _ (decode : Str → Option Connection) (m : ModifyConnections) where
  abbrev base : Dict Connection
  base = remove_all m.removals (index m.connections [])

  updated-parts :
      (d : Dict Connection)
      → updated decode m ≡ some d
      → (d' : Dict Connection) × (add_all decode m.additions base ≡ some d')
        × (d ≡ protect_all m.protections d')
  unfolding updated
  updated-parts d e = elim (Option-cases (add_all decode m.additions base)) [
    | inl failed ↦ ground arith
    | inr (d', found) ↦ (d', found, ground arith)
  ]

  base-lookup :
      (id : Str)
      → lookup id base ≡ (if is_among id m.removals then none else last_with id m.connections none)
  unfolding lookup
  base-lookup id =
      lookup-remove_all id m.removals (index m.connections [])
      ∙ ap (λ o. if is_among id m.removals then none else o)
          (lookup-index id m.connections [] ∙ ap (last_with id m.connections) nothing)
    where
      nothing : lookup {V = Connection} id [] ≡ none
      nothing = refl

  lookup-updated :
      (d : Dict Connection) (id : Str)
      → updated decode m ≡ some d
      → lookup id d ≡ wanted decode m id
  lookup-updated d id e =
      let (d', added, same) = updated-parts d e in
      ap (λ x. lookup id x) same
      ∙ lookup-protect_all id m.protections d'
      ∙ ap (protected_if (is_among id m.protections)) (
          lookup-add_all decode id m.additions base d' added
          ∙ ap (λ o. or_else o (first_added decode id m.additions)) (base-lookup id))

  updated-IsKeyed : (d : Dict Connection) → updated decode m ≡ some d → IsKeyed d
  updated-IsKeyed d e =
      let (d', added, same) = updated-parts d e in
      rw same (
        protect_all-IsKeyed m.protections d' (
          add_all-IsKeyed decode m.additions base d' added (
            remove_all-IsKeyed m.removals (index m.connections [])
              (index-IsKeyed m.connections [] tt))))

-- If `range` visits each entry of a map once and Update gives a list, then the list holds, in
-- some order, the values of a map that lists each id once and has exactly what is wanted of it:
-- the last connection given with the id unless it is to be removed, or else the first addition
-- with it, protected; and protected too if that is asked for.
pub update-wanted :
    (range : Dict Connection → List Connection) (decode : Str → Option Connection)
    (m : ModifyConnections) (res : List Connection)
    → ((d : Dict Connection) → Perm (range d) (values d))
    → update range decode m ≡ some res
    → (d : Dict Connection) × IsKeyed d
      × Perm res (values d)
      × ((id : Str) → lookup id d ≡ wanted decode m id)
unfolding update
update-wanted range decode m res visits e = elim (Option-cases (updated decode m)) [
  | inl failed ↦ ground arith
  | inr (d, found) ↦
      let same : range d ≡ res = ground arith in
      (
        d,
        updated-IsKeyed decode m d found,
        rw same at (visits d),
        λ id. lookup-updated decode m d id found,
      )
]
