-- ===== src/Service/Enabled.antt =====
-- pkg/service/connectionmanager.go, UpdateConnections and shuffleConnections: the list of enabled
-- connections in a random order. `intn i n` is what the `rand.Intn(n)` of round `i` returns; its
-- documentation promises a number below `n`.
use mathlib.Core.List.{Perm, perm-cons, filter}
use mathlib.Core.List.Perm
use mathlib.Core.Path.{subst}
use alkasir.Base.{
  ℕ, zero, suc, ◌+◌, ◌<◌, ◌≡◌, refl, Bool, false, not, Option, none, some, List, [], ◌∷◌, arith,
  length, get_elem?, set, length-set, get_elem?_total, if◌then◌else◌,
}
use alkasir.Shared.Connection.{Connection}

module _ {A : Type 0} where
  -- `slc[r], slc[i] = slc[i], slc[r]`; `none` is the panic of an index out of range.
  swap : ℕ → ℕ → List A → Option (List A)
  swap r i slc = elim (get_elem? slc i) [
    | none ↦ none
    | some a ↦ elim (get_elem? slc r) [ none ↦ none | some b ↦ some (set (set slc r a) i b) ]
  ]

  get_elem?-set_kept :
      (xs : List A) (r i : ℕ) (a : A) → get_elem? xs i ≡ some a → get_elem? (set xs r a) i ≡ some a
  get_elem?-set_kept [] r i a e = e
  get_elem?-set_kept (x ∷ xs) zero zero a e = refl
  get_elem?-set_kept (x ∷ xs) zero (suc i) a e = e
  get_elem?-set_kept (x ∷ xs) (suc r) zero a e = e
  get_elem?-set_kept (x ∷ xs) (suc r) (suc i) a e = get_elem?-set_kept xs r i a e

  -- The rounds of the loop of shuffleConnections that are left, from round `i` on.
  shuffle_from : (ℕ → ℕ → ℕ) → ℕ → ℕ → List A → Option (List A)
  shuffle_from intn zero i slc = some slc
  shuffle_from intn (suc left) i slc = elim (swap (i + intn i (suc left)) i slc) [
    | none ↦ none
    | some s ↦ shuffle_from intn left (suc i) s
  ]

  -- Writing `b` over `a` trades the one for the other.
  set-perm :
      (xs : List A) (i : ℕ) (a b : A) → get_elem? xs i ≡ some a → Perm (b ∷ xs) (a ∷ set xs i b)
  set-perm [] i a b e = cc
  set-perm (x ∷ xs) zero a b e = let p : x ≡ a = cc in rw p (Perm.swap a b xs)
  set-perm (x ∷ xs) (suc i) a b e =
      Perm.trans (Perm.swap x b xs)
        (Perm.trans (Perm.cons x (set-perm xs i a b e)) (Perm.swap a x (set xs i b)))

  swap-perm :
      (r i : ℕ) (slc : List A)
      → r < length slc
      → i < length slc
      → (res : List A) × (swap r i slc ≡ some res) × Perm res slc × (length res ≡ length slc)
  unfolding swap
  swap-perm r i slc hr hi =
      let (a, ea) = get_elem?_total slc i hi in
      let (b, eb) = get_elem?_total slc r hr in
      let there = set-perm slc r b a eb in
      let back = set-perm (set slc r a) i a b (get_elem?-set_kept slc r i a ea) in
      (
        set (set slc r a) i b,
        ground arith,
        Perm.symm ((perm-cons a).0 (Perm.trans there back)),
        omega (arith, length-set slc r a, length-set (set slc r a) i b),
      )

  shuffle_from-perm :
      (intn : ℕ → ℕ → ℕ)
      → ((i n : ℕ) → 0 < n → intn i n < n)
      → (left i : ℕ) (slc : List A) → i + left ≡ length slc
      → (res : List A) × (shuffle_from intn left i slc ≡ some res) × Perm res slc
  unfolding shuffle_from
  shuffle_from-perm intn below zero i slc e = (slc, refl, Perm.refl slc)
  shuffle_from-perm intn below (suc left) i slc e =
      let r_lt = below i (suc left) (omega arith) in
      let (s, eq, p, len) = swap-perm (i + intn i (suc left)) i slc (omega arith) (omega arith) in
      let (res, eq', p') = shuffle_from-perm intn below left (suc i) s (omega arith) in
      (res, rw (shuffle_from, eq) eq', Perm.trans p' p)

pub shuffle_connections : (ℕ → ℕ → ℕ) → List Connection → Option (List Connection)
shuffle_connections intn slc = shuffle_from intn (length slc) 0 slc

-- The loop of UpdateConnections.
enabled : List Connection → List Connection
enabled [] = []
enabled (c ∷ cs) = if not c.disabled then c ∷ enabled cs else enabled cs

-- The new `currentConnections`.
pub update_connections : (ℕ → ℕ → ℕ) → List Connection → Option (List Connection)
unfolding enabled shuffle_connections shuffle_from swap
update_connections intn connections = shuffle_connections intn (enabled connections)

pub Bool-discrete : Discrete Bool
Bool-discrete = hlevel

enabled-filter :
    (cs : List Connection) → enabled cs ≡ filter (λ c. Bool-discrete c.disabled false) cs
unfolding enabled
enabled-filter [] = refl
enabled-filter (c ∷ cs) = ground (arith, enabled-filter cs)

-- If each draw keeps its bound, the new list is there (no index is out of range), and is a
-- rearrangement of the connections that are not disabled, each as often as it was given.
pub update_connections-perm :
    (intn : ℕ → ℕ → ℕ) (connections : List Connection)
    → ((i n : ℕ) → 0 < n → intn i n < n)
    → (res : List Connection) × (update_connections intn connections ≡ some res)
      × Perm res (filter (λ c. Bool-discrete c.disabled false) connections)
unfolding update_connections
update_connections-perm intn connections below =
    let (res, e, p) =
      shuffle_from-perm intn below (length (enabled connections)) 0 (enabled connections)
        (omega arith) in
    (res, e, subst (λ l. Perm res l) (enabled-filter connections) p)
