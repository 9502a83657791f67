-- ===== src/Service/Registry/Laws.antt =====
-- The managed services are found under ids that the generator gave, so that a new one never clashes.
use alkasir.Base.{
  ℕ, zero, suc, ◌^◌, ◌<◌, ◌≤◌, ◌≡◌, refl, ap, inl, inr, none, some, List, [], ◌∷◌, ◌++◌, ◌⊎◌, arith,
  Str, str_eq, str_eq_iff, length, get_elem?, set, All, Bool-cases,
}
use alkasir.Base.Dict.{Dict, lookup, insert, erase}
use alkasir.Shared.Ids.{key, key_injective}
use alkasir.Service.Registry.{Service, World}

pub get_elem?-append :
    {A : Type 0} (xs ys : List A) (i : ℕ) (a : A)
    → get_elem? xs i ≡ some a
    → get_elem? (xs ++ ys) i ≡ some a
get_elem?-append [] ys i a e = cc
get_elem?-append (x ∷ xs) ys zero a e = e
get_elem?-append (x ∷ xs) ys (suc i) a e = get_elem?-append xs ys i a e

pub get_elem?-snoc :
    {A : Type 0} (xs : List A) (a : A) → get_elem? (xs ++ a ∷ []) (length xs) ≡ some a
get_elem?-snoc [] a = refl
get_elem?-snoc (x ∷ xs) a = get_elem?-snoc xs a

get_elem?-set :
    {A : Type 0} (xs : List A) (p q : ℕ) (a b : A)
    → get_elem? xs q ≡ some b
    → ((p ≡ q) × (get_elem? (set xs p a) q ≡ some a)) ⊎ (get_elem? (set xs p a) q ≡ some b)
get_elem?-set [] p q a b e = cc
get_elem?-set (x ∷ xs) zero zero a b e = inl (refl, refl)
get_elem?-set (x ∷ xs) zero (suc q) a b e = inr e
get_elem?-set (x ∷ xs) (suc p) zero a b e = inr e
get_elem?-set (x ∷ xs) (suc p) (suc q) a b e = elim (get_elem?-set xs p q a b e) [
  | inl (same, found) ↦ inl (ap suc same, found)
  | inr other ↦ inr other
]

-- An entry of the list: a number that the generator has given, and an object with the id.
abbrev pub IsEntry : List Service → Str → ℕ → Str × ℕ → Type 0
IsEntry objects prefix count (id, p) =
    (c : ℕ) × (c ≤ count)
    × (id ≡ key prefix c)
    × (s : Service) × (get_elem? objects p ≡ some s)
    × (s.id ≡ id)

abbrev pub IsOrderly : World → Type 0
IsOrderly w =
    (w.service_ids.count < 2 ^ 64)
    × All (IsEntry w.objects w.service_ids.prefix w.service_ids.count) w.items

pub fresh :
    (objects : List Service) (prefix : Str) (count n : ℕ) (items : Dict ℕ)
    → count < n
    → All (IsEntry objects prefix count) items
    → lookup (key prefix n) items ≡ none
unfolding lookup
fresh objects prefix count n [] h v = refl
fresh objects prefix count n ((id, p) ∷ items) h ((c, le, same, _, _, _), v) = ground (
  arith,
  str_eq_iff id (key prefix n),
  key_injective prefix c n,
  fresh objects prefix count n items h v,
)

-- Growth of the heap and of the counter, and a write that keeps the id.
pub grown :
    (objects more : List Service) (prefix : Str) (m n : ℕ) (items : Dict ℕ)
    → m ≤ n
    → All (IsEntry objects prefix m) items
    → All (IsEntry (objects ++ more) prefix n) items
grown objects more prefix m n [] h v = tt
grown objects more prefix m n ((id, p) ∷ items) h ((c, le, same, s, found, named), v) = (
  (c, omega arith, same, s, get_elem?-append objects more p s found, named),
  grown objects more prefix m n items h v,
)

pub written :
    (objects : List Service) (prefix : Str) (n p : ℕ) (items : Dict ℕ) (s s' : Service)
    → get_elem? objects p ≡ some s
    → s'.id ≡ s.id
    → All (IsEntry objects prefix n) items
    → All (IsEntry (set objects p s') prefix n) items
written objects prefix n p [] s s' e i v = tt
written objects prefix n p ((id, q) ∷ items) s s' e i ((c, le, same, t, found, named), v) =
    (entry (get_elem?-set objects p q s' t found), written objects prefix n p items s s' e i v)
  where
    entry :
        ((p ≡ q) × (get_elem? (set objects p s') q ≡ some s'))
          ⊎ (get_elem? (set objects p s') q ≡ some t)
        → IsEntry (set objects p s') prefix n (id, q)
    entry (inl (here, x)) = (c, le, same, s', x, ground arith)
    entry (inr x) = (c, le, same, t, x, named)

pub inserted :
    (P : Str × ℕ → Type 0) (id : Str) (p : ℕ) (items : Dict ℕ)
    → P (id, p)
    → All P items
    → All P (insert id p items)
unfolding insert
inserted P id p [] h v = (h, tt)
inserted P id p ((j, q) ∷ items) h (k, v) = elim (Bool-cases (str_eq j id)) [
  | inl same ↦ rw same (h, v)
  | inr other ↦ rw other (k, inserted P id p items h v)
]

pub erased :
    (P : Str × ℕ → Type 0) (id : Str) (items : Dict ℕ) → All P items → All P (erase id items)
unfolding erase
erased P id [] v = tt
erased P id ((j, q) ∷ items) (k, v) = elim (Bool-cases (str_eq j id)) [
  | inl same ↦ rw same (erased P id items v)
  | inr other ↦ rw other (k, erased P id items v)
]
