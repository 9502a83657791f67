-- ===== src/Binary/Import/Unique.antt =====
-- No version of an artifact is listed twice.
use alkasir.Base.{
  ℕ, ◌≡◌, ◌≢◌, refl, sym, ap, ◌∙◌, inl, inr, Bool, false, ◌&&◌, none, List, [], ◌∷◌, ◌++◌, str_eq,
  str_eq_iff, arith, All, All-append, Bool-cases,
}
use alkasir.Base.Dict.{Dict, lookup, insert, values, IsKeyed, insert-IsKeyed}
use alkasir.Shared.Version.{Upgrade}
use alkasir.Binary.Patch.{CreatePatchResult}
use alkasir.Binary.Import.{
  Row, selects, get_upgrade, entry_of, is_imported, unique_key, collect, insert_upgrades,
  import_upgrades,
}

-- Not of the same artifact and version.
abbrev pub Differs : Upgrade → Upgrade → Type 0
Differs u v = (str_eq u.artifact v.artifact && str_eq u.version v.version) ≡ false

abbrev pub IsUnique : List Row → Type 0
IsUnique [] = Unit
IsUnique (r ∷ rows) = All (λ s. Differs r.entry s.entry) rows × IsUnique rows

abbrev IsAbsent : Upgrade → List Row → Type 0
IsAbsent u table = All (λ r. Differs r.entry u) table

not_imported-IsAbsent :
    (table : List Row) (c : CreatePatchResult)
    → c.new_version ≢ []
    → is_imported table c ≡ false
    → IsAbsent (entry_of c) table
unfolding is_imported get_upgrade selects
not_imported-IsAbsent [] c h e = tt
not_imported-IsAbsent (r ∷ rows) c h e =
    ground (arith, str_eq_iff c.new_version [], not_imported-IsAbsent rows c h)

-- The entries that are to be inserted: under their keys, and none of them in the table.
abbrev IsFresh : List Row → Dict Upgrade → Type 0
IsFresh table = All (λ e. (e.0 ≡ unique_key e.1) × IsAbsent e.1 table)

insert-IsFresh :
    (table : List Row) (u : Upgrade) (d : Dict Upgrade)
    → IsAbsent u table
    → IsFresh table d
    → IsFresh table (insert (unique_key u) u d)
unfolding insert
insert-IsFresh table u [] a h = ((refl, a), tt)
insert-IsFresh table u ((k, v) ∷ d) a (hv, h) = elim (Bool-cases (str_eq k (unique_key u))) [
  | inl same ↦ rw (same, insert) ((refl, a), h)
  | inr other ↦ rw (other, insert) (hv, insert-IsFresh table u d a h)
]

collect-IsFresh :
    (table : List Row) (cs : List CreatePatchResult) (d : Dict Upgrade)
    → All (λ c. c.new_version ≢ []) cs
    → IsFresh table d
    → IsKeyed d
    → IsFresh table (collect table cs d) × IsKeyed (collect table cs d)
unfolding collect
collect-IsFresh table [] d hs h k = (h, k)
collect-IsFresh table (c ∷ cs) d (hc, hs) h k = elim (Bool-cases (is_imported table c)) [
  | inl old ↦ rw (old, collect) (collect-IsFresh table cs d hs h k)
  | inr new ↦
      rw (new, collect)
        (collect-IsFresh table cs (insert (unique_key (entry_of c)) (entry_of c) d) hs
          (insert-IsFresh table (entry_of c) d (not_imported-IsAbsent table c hc new) h)
          (insert-IsKeyed (unique_key (entry_of c)) (entry_of c) d k))
]

key-Differs : (u v : Upgrade) → unique_key v ≢ unique_key u → Differs u v
key-Differs u v h = elim (Bool-cases (str_eq u.artifact v.artifact && str_eq u.version v.version)) [
  | inr differs ↦ differs
  | inl equal ↦
      let artifact : v.artifact ≡ u.artifact = ground (arith, str_eq_iff u.artifact v.artifact) in
      let version : v.version ≡ u.version = ground (arith, str_eq_iff u.version v.version) in
      absurd (h (rw (artifact, version) refl))
]

-- Entries under different keys differ.
lookup-Differs :
    (u : Upgrade) (d : Dict Upgrade) (table : List Row)
    → IsFresh table d
    → lookup (unique_key u) d ≡ none
    → All (λ v. Differs u v) (values d)
unfolding lookup
lookup-Differs u [] table h e = tt
lookup-Differs u ((k, v) ∷ d) table ((same, _), h) e = elim (Bool-cases (str_eq k (unique_key u))) [
  | inl hit ↦ cc (rw (hit, lookup) at e)
  | inr miss ↦ (
    key-Differs u v (λ q. cc (miss, (str_eq_iff k (unique_key u)).1 (same ∙ q))),
    lookup-Differs u d table h (rw (miss, lookup) at e),
  )
]

-- Entries that differ from each other and from the table can follow it.
abbrev AreNew : List Row → List Upgrade → Type 0
AreNew table [] = Unit
AreNew table (u ∷ us) = IsAbsent u table × All (λ v. Differs u v) us × AreNew table us

IsFresh-AreNew :
    (table : List Row) (d : Dict Upgrade) → IsFresh table d → IsKeyed d → AreNew table (values d)
IsFresh-AreNew table [] h k = tt
IsFresh-AreNew table ((k, v) ∷ d) ((same, absent), h) (free, ks) = (
  absent,
  lookup-Differs v d table h (sym (ap (λ j. lookup j d) same) ∙ free),
  IsFresh-AreNew table d h ks,
)

IsUnique-snoc :
    (table : List Row) (r : Row)
    → IsUnique table
    → IsAbsent r.entry table
    → IsUnique (table ++ r ∷ [])
IsUnique-snoc [] r u a = (tt, tt)
IsUnique-snoc (s ∷ rows) r (h, u) (d, a) =
    (All-append _ rows (r ∷ []) h (d, tt), IsUnique-snoc rows r u a)

AreNew-snoc :
    (table : List Row) (r : Row) (us : List Upgrade)
    → AreNew table us
    → All (λ v. Differs r.entry v) us
    → AreNew (table ++ r ∷ []) us
AreNew-snoc table r [] n d = tt
AreNew-snoc table r (u ∷ us) (a, h, n) (e, d) =
    (All-append _ table (r ∷ []) a (e, tt), h, AreNew-snoc table r us n d)

insert_upgrades-IsUnique :
    (can_insert : Upgrade → Bool) (now : ℕ) (us : List Upgrade) (table : List Row)
    → IsUnique table
    → AreNew table us
    → IsUnique (insert_upgrades can_insert now us table).1
unfolding insert_upgrades
insert_upgrades-IsUnique can_insert now [] table h n = h
insert_upgrades-IsUnique can_insert now (u ∷ us) table h (a, d, n) =
    let r : Row = record { entry = record u { created_at = now }; published = false } in
    elim (Bool-cases (can_insert u)) [
      | inr bad ↦ rw (bad, insert_upgrades) h
      | inl fine ↦
          rw (fine, insert_upgrades)
            (insert_upgrades-IsUnique can_insert now us (table ++ r ∷ [])
              (IsUnique-snoc table r h a) (AreNew-snoc table r us n d))
    ]

-- A table in which no version of an artifact is listed twice stays one, whatever patches with a version are
-- imported, as often as they come, and wherever the insertion stops.
pub import_upgrades-IsUnique :
    (can_insert : Upgrade → Bool) (now : ℕ) (results : List CreatePatchResult) (table : List Row)
    → All (λ c. c.new_version ≢ []) results
    → IsUnique table
    → IsUnique (import_upgrades can_insert now results table).1
unfolding import_upgrades
import_upgrades-IsUnique can_insert now results table named h =
    let (fresh, keyed) = collect-IsFresh table results [] named tt tt in
    insert_upgrades-IsUnique can_insert now (values (collect table results [])) table h
      (IsFresh-AreNew table (collect table results []) fresh keyed)
