-- ===== src/Central/Export/Paging.antt =====
-- Whoever follows the links of the export gets each row once.
use mathlib.Core.Path.{subst}
use mathlib.Core.List.{append_assoc, append-nil}
use alkasir.Base.{
  ℕ, zero, suc, ◌+◌, ◌≤◌, ◌<◌, ◌≡◌, refl, sym, ◌∙◌, ap, inl, inr, Bool, true, false, ◌==◌, ltb,
  Option, none, some, List, [], ◌∷◌, ◌++◌, arith, length, length-append, take, take-all, last?-snoc,
  All, Bool-cases, List-cases, if◌then◌else◌,
}
use alkasir.Central.Export.{Entry, below, query, scan, get_export, linked, export_page, follow}

-- The ids get smaller, and none is 0.
abbrev pub IsDecreasing : List Entry → Type 0
IsDecreasing [] = Unit
IsDecreasing (e ∷ es) = All (λ x. x.id < e.id) es × (0 < e.id) × IsDecreasing es

below-All : (m : ℕ) (es : List Entry) → All (λ x. x.id < m) es → below m es ≡ es
unfolding below
below-All m [] h = refl
below-All m (e ∷ es) (lt, h) = ground (arith, lt, below-All m es h)

middle :
    (before : List Entry) (y : Entry) (after : List Entry) (e : Entry)
    → All (λ x. x.id < e.id) (before ++ y ∷ after)
    → y.id < e.id
middle [] y after e (lt, h) = lt
middle (b ∷ before) y after e (lt, h) = middle before y after e h

-- The entries that come after one are those below it.
below-after :
    (before : List Entry) (y : Entry) (after : List Entry)
    → IsDecreasing (before ++ y ∷ after)
    → below y.id (before ++ y ∷ after) ≡ after
unfolding below
below-after [] y after (a, pos, d) = ground (arith, below-All y.id after a)
below-after (e ∷ before) y after (a, pos, d) =
    ground (arith, below-after before y after d, middle before y after e a)

positive :
    (before : List Entry) (y : Entry) (after : List Entry)
    → IsDecreasing (before ++ y ∷ after)
    → 0 < y.id
positive [] y after (a, pos, d) = pos
positive (e ∷ before) y after (a, pos, d) = positive before y after d

-- A step of the loop over the rows, by the outcome of its test.
scan-step :
    (n count : ℕ) (e : Entry) (rows results : List Entry) (next : Option ℕ) (b : Bool)
    → ltb n (count + 1) ≡ b
    → scan n count (e ∷ rows) results next ≡ (
        if b
        then scan n (count + 1) rows results (some e.id)
        else scan n (count + 1) rows (results ++ e ∷ []) next)
unfolding scan
scan-step n count e rows results next b same =
    ap
      (λ c.
        if c
        then scan n (count + 1) rows results (some e.id)
        else scan n (count + 1) rows (results ++ e ∷ []) next)
      same

-- Rows that fit are all taken.
scan-short :
    (n count : ℕ) (rows results : List Entry) (next : Option ℕ)
    → count + length rows ≤ n
    → scan n count rows results next ≡ (results ++ rows, next)
unfolding scan
scan-short n count [] results next h = ap (λ l. (l, next)) (sym (append-nil results))
scan-short n count (e ∷ rows) results next h =
    let within : ltb n (count + 1) ≡ false = ground (arith, h) in
    scan-step n count e rows results next false within
    ∙ scan-short n (count + 1) rows (results ++ e ∷ []) next (omega (arith, h))
    ∙ ap (λ l. (l, next)) (append_assoc results (e ∷ []) rows)

-- One row too many gives the id of that row.
scan-long :
    (n count : ℕ) (rows results : List Entry) (next : Option ℕ) (z : Entry)
    → count + length rows ≡ n
    → scan n count (rows ++ z ∷ []) results next ≡ (results ++ rows, some z.id)
unfolding scan
scan-long n count [] results next z h =
    let past : ltb n (count + 1) ≡ true = ground (arith, h) in
    scan-step n count z [] results next true past
    ∙ ap (λ l. (l, some z.id)) (sym (append-nil results))
scan-long n count (e ∷ rows) results next z h =
    let within : ltb n (count + 1) ≡ false = ground (arith, h) in
    scan-step n count e (rows ++ z ∷ []) results next false within
    ∙ scan-long n (count + 1) rows (results ++ e ∷ []) next z (omega (arith, h))
    ∙ ap (λ l. (l, some z.id)) (append_assoc results (e ∷ []) rows)

-- The part of the table that a bound selects.
abbrev selected : ℕ → List Entry → List Entry
selected m table = if m == 0 then table else below m table

take-middle :
    (k : ℕ) (xs : List Entry) (z : Entry) (rest : List Entry)
    → k ≡ length xs + 1
    → take k (xs ++ z ∷ rest) ≡ xs ++ z ∷ []
take-middle zero xs z rest h = absurd (omega (arith, h))
take-middle (suc k) [] z rest h =
    let none_left : k ≡ 0 = omega (arith, h) in ap (λ i. z ∷ take i rest) none_left
take-middle (suc k) (x ∷ xs) z rest h = ap (λ l. x ∷ l) (take-middle k xs z rest (omega (arith, h)))

-- A list that is longer than `n`, at the entry behind its first `n`.
split_at :
    (n : ℕ) (es : List Entry)
    → n < length es
    → (xs : List Entry) × (z : Entry) × (rest : List Entry) × (es ≡ xs ++ z ∷ rest)
      × (length xs ≡ n)
split_at n [] h = absurd (omega (arith, h))
split_at zero (e ∷ es) h = ([], e, es, refl, refl)
split_at (suc n) (e ∷ es) h =
    let (xs, z, rest, same, len) = split_at n es (omega (arith, h)) in
    (e ∷ xs, z, rest, ap (λ l. e ∷ l) same, omega (arith, len))

-- A list that is not empty, at its last entry.
snoc_of : (x : Entry) (xs : List Entry) → (q : List Entry) × (y : Entry) × (x ∷ xs ≡ q ++ y ∷ [])
snoc_of x [] = ([], x, refl)
snoc_of x (x' ∷ xs) = let (q, y, same) = snoc_of x' xs in (x ∷ q, y, ap (λ l. x ∷ l) same)

query-selected : (n m : ℕ) (table : List Entry) → query n m table ≡ take (n + 1) (selected m table)
unfolding query
query-selected n m table = ground arith

page-short :
    (n m : ℕ) (table es : List Entry)
    → selected m table ≡ es
    → length es ≤ n
    → export_page n m table ≡ some (record { hosts = es; next = none })
unfolding export_page get_export linked
page-short n m table es sel h =
    rw (query-selected n m table ∙ ap (take (n + 1)) sel ∙ take-all (n + 1) es (omega (arith, h)))
      (rw (scan-short n 0 es [] none (omega (arith, h))) refl)

page-long :
    (n m : ℕ) (table q : List Entry) (y z : Entry) (rest : List Entry)
    → selected m table ≡ (q ++ y ∷ []) ++ z ∷ rest
    → length (q ++ y ∷ []) ≡ n
    → export_page n m table ≡ some (record { hosts = q ++ y ∷ []; next = some y.id })
unfolding export_page get_export linked
page-long n m table q y z rest sel h =
    let first : take (n + 1) ((q ++ y ∷ []) ++ z ∷ rest) ≡ (q ++ y ∷ []) ++ z ∷ [] =
      take-middle (n + 1) (q ++ y ∷ []) z rest (omega (arith, h)) in
    rw (query-selected n m table ∙ ap (take (n + 1)) sel ∙ first) (
      rw (scan-long n 0 (q ++ y ∷ []) [] none z (omega (arith, h)))
        (rw (last?-snoc q y, linked) refl))

-- What is left after an entry is what its id selects.
selected-rest :
    (table before : List Entry) (y : Entry) (after : List Entry)
    → table ≡ before ++ y ∷ after
    → IsDecreasing table
    → selected y.id table ≡ after
selected-rest table before y after e d =
    let d' : IsDecreasing (before ++ y ∷ after) = subst IsDecreasing e d in
    ap (selected y.id) e ∙ ground (arith, positive before y after d', below-after before y after d')

-- The first `n` entries of a longer list, with the last of them and the one that follows.
cut_at :
    (n : ℕ) (es : List Entry)
    → 1 ≤ n
    → n < length es
    → (q : List Entry) × (y : Entry) × (z : Entry) × (rest : List Entry) × (es
        ≡ (q ++ y ∷ []) ++ z ∷ rest)
      × (length (q ++ y ∷ []) ≡ n)
cut_at n es pos h =
    let (xs, z, rest, same, len) = split_at n es h in
    elim (List-cases xs) [
      | inl empty ↦ absurd (omega (arith, pos, len, ap length empty))
      | inr (x, xs', more) ↦
          let (q, y, snoc) = snoc_of x xs' in
          (
            q,
            y,
            z,
            rest,
            same ∙ ap (λ l. l ++ z ∷ rest) (more ∙ snoc),
            sym (ap length (more ∙ snoc)) ∙ len,
          )
    ]

follow_from :
    (fuel n m : ℕ) (table before es : List Entry)
    → 1 ≤ n
    → table ≡ before ++ es
    → IsDecreasing table
    → selected m table ≡ es
    → length es < fuel
    → follow fuel n m table ≡ some es
unfolding follow
follow_from zero n m table before es pos e d sel h = absurd (omega (arith, h))
follow_from (suc fuel) n m table before es pos e d sel h = elim (Bool-cases (ltb n (length es))) [
  | inr short ↦ rw (page-short n m table es sel (ground (arith, short)), follow) refl
  | inl long ↦
      let (q, y, z, rest, same, len) = cut_at n es pos (ground (arith, long)) in
      let at_y : table ≡ (before ++ q) ++ y ∷ (z ∷ rest) =
        e
        ∙ ap (λ l. before ++ l) (same ∙ append_assoc q (y ∷ []) (z ∷ rest))
        ∙ sym (append_assoc before q (y ∷ (z ∷ rest))) in
      let at_z : table ≡ ((before ++ q) ++ y ∷ []) ++ z ∷ rest =
        at_y ∙ sym (append_assoc (before ++ q) (y ∷ []) (z ∷ rest)) in
      let goes =
        follow_from fuel n y.id table ((before ++ q) ++ y ∷ []) (z ∷ rest) pos at_z d
          (selected-rest table (before ++ q) y (z ∷ rest) at_y d)
          (omega (arith, h, len, pos, ap length same, length-append (q ++ y ∷ []) (z ∷ rest))) in
      rw (page-long n m table q y z rest (sel ∙ same) len, follow) (rw goes (ap some (sym same)))
]

-- For a table whose ids decrease and are not 0, and pages of at least one row: whoever asks without a bound and
-- follows the links gets every row once, in order, within as many requests as there are rows and one more.
pub follow-all :
    (page_length : ℕ) (table : List Entry)
    → 1 ≤ page_length
    → IsDecreasing table
    → follow (suc (length table)) page_length 0 table ≡ some table
follow-all n table pos d =
    follow_from (suc (length table)) n 0 table [] table pos refl d refl (omega arith)
