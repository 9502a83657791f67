-- ===== src/Binary/Patch/Newest.antt =====
-- Which versions get a patch.
use mathlib.Core.List.{
  Perm, Permᴰ, Mem, Mem-prop, mem-cons_self, mem-cons_of_mem, eq-or-mem_of_mem-cons,
}
use mathlib.Core.List.Perm
use mathlib.Core.Logic.{∥∥₁_elim}
use mathlib.Core.Logic.Or
use native.Mathlib.Nat.{ℕ_set}
use alkasir.Base.{
  ℕ, zero, suc, ◌<◌, ◌≡◌, refl, sym, ◌∙◌, ap, inl, inr, Bool, true, false, Option, none, some, List,
  [], ◌∷◌, map, Str, arith, ltb, length, take, drop, take-all, All, Bool-cases,
}
use alkasir.Shared.Version.{
  Versions, Order, less, equal, greater, flip, is_less, is_greater, IsAntisymmetric, IsTransitive,
}
use alkasir.Binary.Patch.Jobs.{
  Artifact, latest_from, NotNewer, IsDescending, job_of, all_sent, send_jobs, history,
  create_sorted, create_jobs, reverse, IsOrder, IsSorted, Sort, IsSort, less_than, artifact_less,
}

module _ {V : Type 0} (vs : Versions V) where
  All-drop {ℓ κ} :
      {A : Type ℓ} (P : A → Type κ) (n : ℕ) (xs : List A) → All P xs → All P (drop n xs)
  All-drop P zero xs h = h
  All-drop P (suc n) [] h = tt
  All-drop P (suc n) (x ∷ xs) (_, h) = All-drop P n xs h

  -- Those that come first are not older than those that come later.
  first-NotNewer :
      (n : ℕ) (xs : List (Artifact V))
      → IsDescending vs xs
      → All (λ a. All (λ b. NotNewer vs b a) (drop n xs)) (take n xs)
  first-NotNewer zero xs d = tt
  first-NotNewer (suc n) [] d = tt
  first-NotNewer (suc n) (a ∷ xs) (h, d) = (All-drop _ n xs h, first-NotNewer n xs d)

  All-take {ℓ κ} :
      {A : Type ℓ} (P : A → Type κ) (n : ℕ) (xs : List A) → All P xs → All P (take n xs)
  All-take P zero xs h = tt
  All-take P (suc n) [] h = tt
  All-take P (suc n) (x ∷ xs) (y, h) = (y, All-take P n xs h)

  take-IsDescending :
      (n : ℕ) (xs : List (Artifact V)) → IsDescending vs xs → IsDescending vs (take n xs)
  take-IsDescending zero xs d = tt
  take-IsDescending (suc n) [] d = tt
  take-IsDescending (suc n) (a ∷ xs) (h, d) = (All-take _ n xs h, take-IsDescending n xs d)

  Order-self : (o : Order) → o ≡ flip o → is_greater o ≡ false
  Order-self less e = refl
  Order-self equal e = refl
  Order-self greater e = cc

  self-NotNewer : (a : Artifact V) → IsAntisymmetric vs → NotNewer vs a a
  self-NotNewer a anti = Order-self (vs.compare a.v a.v) (anti a.v a.v)

  greater-flip : (o : Order) → is_greater o ≡ true → is_greater (flip o) ≡ false
  greater-flip less e = cc
  greater-flip equal e = cc
  greater-flip greater e = refl

  newer-NotNewer :
      (a b : Artifact V)
      → IsAntisymmetric vs
      → is_greater (vs.compare b.v a.v) ≡ true
      → NotNewer vs a b
  newer-NotNewer a b anti h = rw (anti a.v b.v) (greater-flip (vs.compare b.v a.v) h)

  mem-skip : (m l a : Artifact V) (xs : List (Artifact V)) → Mem m (l ∷ xs) → Mem m (l ∷ a ∷ xs)
  mem-skip m l a xs h =
      Or.elim Mem-prop (eq-or-mem_of_mem-cons h) (λ e. rw e mem-cons_self)
        (λ k. mem-cons_of_mem l (mem-cons_of_mem a k))

  latest_from-some :
      (l : Artifact V) (xs : List (Artifact V))
      → IsAntisymmetric vs
      → IsTransitive vs
      → (m : Artifact V) × (latest_from vs (some l) xs ≡ some m)
        × Mem m (l ∷ xs)
        × NotNewer vs l m
        × All (λ b. NotNewer vs b m) xs
  unfolding latest_from
  latest_from-some l [] anti trans = (l, refl, mem-cons_self, self-NotNewer l anti, tt)
  latest_from-some l (a ∷ xs) anti trans = elim (Bool-cases (is_greater (vs.compare a.v l.v))) [
    | inl newer ↦
        let (m, e, has, above, all) = latest_from-some a xs anti trans in
        (
          m,
          rw (newer, latest_from) e,
          mem-cons_of_mem l has,
          trans l.v a.v m.v (newer-NotNewer l a anti newer) above,
          (above, all),
        )
    | inr older ↦
        let (m, e, has, above, all) = latest_from-some l xs anti trans in
        (
          m,
          rw (older, latest_from) e,
          mem-skip m l a xs has,
          above,
          (trans a.v l.v m.v older above, all),
        )
  ]

  -- Where the order of versions can be trusted: Latest of a list that is not empty is one of it, and no other
  -- one of the list is newer.
  pub latest-NotNewer :
      (a : Artifact V) (rest : List (Artifact V))
      → IsAntisymmetric vs
      → IsTransitive vs
      → (m : Artifact V) × (latest_from vs none (a ∷ rest) ≡ some m)
        × Mem m (a ∷ rest)
        × All (λ b. NotNewer vs b m) (a ∷ rest)
  unfolding latest_from
  latest-NotNewer a rest anti trans =
      let (m, e, has, above, all) = latest_from-some a rest anti trans in (m, e, has, (above, all))

  not_less-flip : (o : Order) → is_less o ≡ is_greater (flip o)
  not_less-flip less = refl
  not_less-flip equal = refl
  not_less-flip greater = refl

  flip_twice : (o : Order) → flip (flip o) ≡ o
  flip_twice less = refl
  flip_twice equal = refl
  flip_twice greater = refl

  -- Being less is being greater the other way round.
  less_than-flip :
      (a b : Artifact V)
      → IsAntisymmetric vs
      → artifact_less vs a b ≡ is_greater (vs.compare b.v a.v)
  unfolding artifact_less less_than
  less_than-flip a b anti = not_less-flip (vs.compare a.v b.v) ∙ ap is_greater (sym (anti b.v a.v))

  artifact_less-IsOrder : IsAntisymmetric vs → IsTransitive vs → IsOrder (artifact_less vs)
  artifact_less-IsOrder anti trans = (
    λ a b h. less_than-flip b a anti ∙ newer-NotNewer a b anti (sym (less_than-flip a b anti) ∙ h),
    λ a b c h k.
        less_than-flip a c anti
        ∙ trans c.v b.v a.v (sym (less_than-flip b c anti) ∙ k) (sym (less_than-flip a b anti) ∙ h),
  )

  -- Sorted in reverse is sorted with the newest first.
  IsSorted-reverse :
      (xs : List (Artifact V))
      → IsAntisymmetric vs
      → IsSorted (reverse (artifact_less vs)) xs
      → IsDescending vs xs
  IsSorted-reverse [] anti s = tt
  IsSorted-reverse (a ∷ xs) anti (h, s) = (below xs h, IsSorted-reverse xs anti s)
    where
      below :
          (ys : List (Artifact V))
          → All (λ b. reverse (artifact_less vs) b a ≡ false) ys
          → All (λ b. NotNewer vs b a) ys
      below [] k = tt
      below (b ∷ ys) (k, ks) = (sym (less_than-flip a b anti) ∙ k, below ys ks)

reverse-IsOrder :
    {A : Type 0} (is_below : A → A → Bool) → IsOrder is_below → IsOrder (reverse is_below)
reverse-IsOrder is_below (asym, trans) = (λ a b h. asym b a h, λ a b c h k. trans c b a k h)

Permᴰ-length : {A : Type 0} {xs ys : List A} → Permᴰ xs ys → length xs ≡ length ys
Permᴰ-length Permᴰ.nil = refl
Permᴰ-length (Permᴰ.cons e p) = ap suc (Permᴰ-length p)
Permᴰ-length (Permᴰ.swap e f) = refl
Permᴰ-length (Permᴰ.trans p q) = Permᴰ-length p ∙ Permᴰ-length q

Perm-length : {A : Type 0} (xs ys : List A) → Perm xs ys → length xs ≡ length ys
Perm-length xs ys p = ∥∥₁_elim p (ℕ_set (length xs) (length ys)) Permᴰ-length

-- The history of a sorted list: those behind the newest one, fifty at most.
history_lem : {V : Type 0} (l : Artifact V) (xs : List (Artifact V)) → history (l ∷ xs) ≡ take 50 xs
unfolding history
history_lem l xs = elim (Bool-cases (ltb 51 (length (l ∷ xs)))) [
  | inl long ↦ rw (long, history) refl
  | inr short ↦ rw (short, history) (sym (take-all 50 xs (ground (arith, short))))
]

module _ {V : Type 0} (get_binary : Artifact V → Option Str) (private public : Str)
    (path : Artifact V → Str) where
  send_jobs-all :
      (latest : Artifact V) (new : Str) (xs : List (Artifact V))
      → ((a : Artifact V) → get_binary a ≡ some (path a))
      → send_jobs get_binary private public latest new xs
        ≡ all_sent (map (λ a. job_of private public latest new a (path a)) xs)
  unfolding send_jobs
  send_jobs-all latest new [] has = refl
  send_jobs-all latest new (a ∷ xs) has =
      rw (has a, send_jobs) (rw (send_jobs-all latest new xs has) refl)

  create_sorted-newest :
      (vs : Versions V) (xs versions : List (Artifact V))
      → IsDescending vs xs
      → Perm xs versions
      → ((a : Artifact V) → get_binary a ≡ some (path a))
      → 1 < length xs
      → (latest : Artifact V) × (rest : List (Artifact V)) × Perm (latest ∷ rest) versions
        × (create_sorted get_binary private public xs
            ≡ all_sent
                (map (λ a. job_of private public latest (path latest) a (path a)) (take 50 rest)))
        × All (λ a. NotNewer vs a latest) rest
        × All (λ a. All (λ b. NotNewer vs b a) (drop 50 rest)) (take 50 rest)
        × IsDescending vs (take 50 rest)
  unfolding create_sorted
  create_sorted-newest vs [] versions d p has many = absurd (omega arith)
  create_sorted-newest vs (a ∷ []) versions d p has many = absurd (omega arith)
  create_sorted-newest vs (l ∷ b ∷ xs) versions (h, d) p has many = (
    l,
    b ∷ xs,
    p,
    rw (has l, create_sorted)
        (rw (history_lem l (b ∷ xs)) (send_jobs-all l (path l) (take 50 (b ∷ xs)) has)),
    h,
    first-NotNewer vs 50 (b ∷ xs) d,
    take-IsDescending vs 50 (b ∷ xs) d,
  )

  -- Where the order of versions can be trusted, the sort keeps its promise and all files can be had: of two
  -- versions or more, each of the fifty that follow the newest gets a patch to it, from the newer to the older
  -- ones. None of the versions is newer than that, and none that gets no patch is newer than one that does.
  pub create_jobs-newest :
      (vs : Versions V) (sort : Sort (Artifact V)) (versions : List (Artifact V))
      → IsAntisymmetric vs
      → IsTransitive vs
      → IsSort sort
      → ((a : Artifact V) → get_binary a ≡ some (path a))
      → 1 < length versions
      → (latest : Artifact V) × (rest : List (Artifact V)) × Perm (latest ∷ rest) versions
        × (create_jobs get_binary private public vs sort versions
            ≡ all_sent
                (map (λ a. job_of private public latest (path latest) a (path a)) (take 50 rest)))
        × All (λ a. NotNewer vs a latest) rest
        × All (λ a. All (λ b. NotNewer vs b a) (drop 50 rest)) (take 50 rest)
        × IsDescending vs (take 50 rest)
  unfolding create_jobs
  create_jobs-newest vs sort versions anti trans sorts has many =
      let order = artifact_less-IsOrder vs anti trans in
      let up = sort (artifact_less vs) versions in
      let (_, first) = sorts (artifact_less vs) versions order in
      let (sorted, second) =
        sorts (reverse (artifact_less vs)) up (reverse-IsOrder (artifact_less vs) order) in
      let down = sort (reverse (artifact_less vs)) up in
      let same : Perm down versions = Perm.trans second first in
      create_sorted-newest vs down versions (IsSorted-reverse vs down anti sorted) same has
        (omega (arith, many, Perm-length down versions same))
