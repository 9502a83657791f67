-- ===== src/Base/Decimal.antt =====
-- `%d` of an unsigned number: its decimal digits, which determine it.
use Prim.Native.Nat.{ℕ, zero, suc, ◌+◌, ◌*◌, ◌-◌, ◌/◌, ◌%◌, ◌<◌}
use mathlib.Core.Path.{◌≡◌, refl, sym, ap, ◌∙◌}
use mathlib.Core.Logic.{inl, inr}
use mathlib.Core.List.{[], ◌∷◌, ◌++◌}
use native.Mathlib.Omega.{arith}
use alkasir.Base.Tests.{ltb, if◌then◌else◌, Bool-cases}
use alkasir.Base.Text.{Str}

-- On fuel: one more than the number is enough.
digits : ℕ → ℕ → Str
digits zero n = []
digits (suc f) n =
    let rest = digits f (n / 10) ++ (b'0' + n % 10) ∷ [] in
    if ltb n 10 then (b'0' + n) ∷ [] else rest

unfoldable pub decimal : ℕ → Str
unfolding digits
decimal n = digits (suc n) n

-- The number that digits stand for, after those read already.
value : ℕ → Str → ℕ
value acc [] = acc
value acc (d ∷ s) = value (acc * 10 + (d - b'0')) s

value-append : (acc : ℕ) (s : Str) (d : ℕ) → value acc (s ++ d ∷ []) ≡ value acc s * 10 + (d - b'0')
unfolding value
value-append acc [] d = refl
value-append acc (c ∷ s) d = value-append (acc * 10 + (c - b'0')) s d

value-digits : (f n : ℕ) → n < f → value 0 (digits f n) ≡ n
unfolding digits
value-digits zero n h = elim h [ ]
value-digits (suc f) n h = elim (Bool-cases (ltb n 10)) [
  | inl small ↦ rw small (unfold value in omega arith)
  | inr large ↦ rw (large, value-append) (ground (arith, value-digits f (n / 10)))
]

pub decimal_injective : (m n : ℕ) → decimal m ≡ decimal n → m ≡ n
unfolding decimal
decimal_injective m n e =
    sym (value-digits (suc m) m (omega arith))
    ∙ ap (value 0) e
    ∙ value-digits (suc n) n (omega arith)
