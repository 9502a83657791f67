-- ===== src/Shared/PublicIp/Shuffle.antt =====
-- The shuffle loses nothing.
use mathlib.Core.List.{Perm}
use mathlib.Core.List.Perm
use alkasir.Base.{
  ℕ, zero, suc, ◌+◌, ◌≤◌, ◌<◌, ◌≡◌, refl, sym, ap, ◌∙◌, some, List, [], ◌∷◌, arith, Str, length,
  get_elem?, get_elem?_total, set, length-set, some_inj,
}
use alkasir.Shared.PublicIp.{swap, shuffle_from, shuffle_strings}

module _ {ℓ} {A : Type ℓ} where
  set-perm :
      (x y : A) (xs : List A) (j : ℕ) → get_elem? xs j ≡ some y → Perm (y ∷ set xs j x) (x ∷ xs)
  set-perm x y [] j e = cc
  set-perm x y (z ∷ xs) zero e = rw (← some_inj e) (Perm.swap x z xs)
  set-perm x y (z ∷ xs) (suc j) e =
      Perm.trans (Perm.swap z y (set xs j x))
        (Perm.trans (Perm.cons z (set-perm x y xs j e)) (Perm.swap x z xs))

  set_self : (x : A) (xs : List A) (j : ℕ) → get_elem? xs j ≡ some x → set xs j x ≡ xs
  set_self x [] j e = refl
  set_self x (z ∷ xs) zero e = ap (λ a. a ∷ xs) (sym (some_inj e))
  set_self x (z ∷ xs) (suc j) e = ap (λ l. z ∷ l) (set_self x xs j e)

  set_set-perm :
      (x y : A) (xs : List A) (i j : ℕ)
      → i ≤ j
      → get_elem? xs i ≡ some x
      → get_elem? xs j ≡ some y
      → Perm (set (set xs j x) i y) xs
  set_set-perm x y [] i j h e f = cc
  set_set-perm x y (z ∷ xs) zero zero h e f = rw (← some_inj f) (Perm.refl _)
  set_set-perm x y (z ∷ xs) zero (suc j) h e f = rw (← some_inj e) (set-perm z y xs j f)
  set_set-perm x y (z ∷ xs) (suc i) zero h e f = absurd (omega arith)
  set_set-perm x y (z ∷ xs) (suc i) (suc j) h e f =
      Perm.cons z (set_set-perm x y xs i j (omega arith) e f)

  -- An exchange with an index that is not before gives a permutation.
  swap-perm :
      (i j : ℕ) (xs : List A)
      → i ≤ j
      → j < length xs
      → (ys : List A) × (swap i j xs ≡ some ys) × Perm ys xs × (length ys ≡ length xs)
  unfolding swap
  swap-perm i j xs h k =
      let (x, e) = get_elem?_total xs i (omega arith) in
      let (y, f) = get_elem?_total xs j k in
      (
        set (set xs j x) i y,
        rw (e, swap) (rw (f, swap) refl),
        set_set-perm x y xs i j h e f,
        length-set (set xs j x) i y ∙ length-set xs j x,
      )

  shuffle_from-perm :
      (intn : ℕ → ℕ → ℕ) (i left : ℕ) (xs : List A)
      → ((k n : ℕ) → 0 < n → intn k n < n)
      → i + left ≡ length xs
      → (ys : List A) × (shuffle_from intn i left xs ≡ some ys) × Perm ys xs
  unfolding shuffle_from
  shuffle_from-perm intn i zero xs within h = (xs, refl, Perm.refl xs)
  shuffle_from-perm intn i (suc left) xs within h =
      let r = i + intn i (suc left) in
      let small : intn i (suc left) < suc left = within i (suc left) (omega arith) in
      let (ys, e, p, len) = swap-perm i r xs (omega arith) (omega (arith, h, small)) in
      let (zs, f, q) = shuffle_from-perm intn (i + 1) left ys within (omega (arith, h, len)) in
      (zs, rw (e, shuffle_from) f, Perm.trans q p)

-- Whatever the random numbers are, as long as each is below the number that it is asked for: the shuffle ends
-- without a panic, and each service is listed after it as often as before.
pub shuffle_strings-perm :
    (intn : ℕ → ℕ → ℕ) (slc : List Str)
    → ((k n : ℕ) → 0 < n → intn k n < n)
    → (ys : List Str) × (shuffle_strings intn slc ≡ some ys) × Perm ys slc
unfolding shuffle_strings
shuffle_strings-perm intn slc within =
    shuffle_from-perm intn 0 (length slc) slc within (omega arith)
