-- ===== src/Shared/Ids.antt =====
-- pkg/shared/utils.go, idGen: ids in a sequence, `prefix-1`, `prefix-2` and so on. The counter is a
-- 64-bit word.
use alkasir.Base.{
  ℕ, zero, suc, ◌+◌, ◌%◌, ◌^◌, ◌<◌, ◌≤◌, ◌≡◌, ◌≢◌, refl, ◌∙◌, sym, ap, Bool, true, false, Option,
  none, some, List, [], ◌∷◌, ◌++◌, arith, Str, codes, leb, not, ◌&&◌, ◌||◌, str_eq, if◌then◌else◌,
}
use alkasir.Base.Decimal.{decimal, decimal_injective}
mod Tests

pub record IdGen : Type 0 where
  pub count : ℕ
  pub prefix : Str

abbrev is_alnum : ℕ → Bool
is_alnum c = (leb b'0' c && leb c b'9') || (leb b'A' c && leb c b'Z') || (leb b'a' c && leb c b'z')

unfoldable pub all_alnum : Str → Bool
all_alnum [] = true
all_alnum (c ∷ s) = is_alnum c && all_alnum s

-- `validIDPrefix`
unfoldable pub valid_prefix : Str → Bool
valid_prefix s = not (str_eq s []) && all_alnum s

unfoldable pub new_id_gen : Str → Option IdGen
new_id_gen prefix =
    if not (valid_prefix prefix) then none else some (record { count = 0; prefix = prefix })

unfoldable pub key : Str → ℕ → Str
key prefix n = prefix ++ b'-' ∷ decimal n

unfoldable pub new_id : IdGen → Str × IdGen
new_id g = let count = (g.count + 1) % 2 ^ 64 in (key g.prefix count, record g { count = count })

append-cancel : (p s t : Str) → p ++ s ≡ p ++ t → s ≡ t
append-cancel [] s t e = e
append-cancel (c ∷ p) s t e = append-cancel p s t (ground arith)

-- Two ids of one prefix with different numbers differ.
pub key_injective : (prefix : Str) (m n : ℕ) → key prefix m ≡ key prefix n → m ≡ n
unfolding key
key_injective prefix m n e = decimal_injective m n (
    append-cancel (codes "-") (decimal m) (decimal n)
      (append-cancel prefix (b'-' ∷ decimal m) (b'-' ∷ decimal n) e))

-- The generator after a number of ids.
unfoldable pub after : ℕ → IdGen → IdGen
after zero g = g
after (suc n) g = after n (new_id g).1

after-count :
    (n : ℕ) (g : IdGen)
    → g.count < 2 ^ 64
    → ((after n g).count ≡ (g.count + n) % 2 ^ 64) × ((after n g).prefix ≡ g.prefix)
unfolding after new_id
after-count zero g h = (omega arith, refl)
after-count (suc n) g h =
    let (a, b) = after-count n (new_id g).1 (omega arith) in (omega (arith, a), b)

-- Two ids of one generator differ if fewer than 2^64 calls lie between them.
pub new_id-distinct :
    (g : IdGen) (i j : ℕ)
    → g.count < 2 ^ 64
    → i < j
    → j < i + 2 ^ 64
    → (new_id (after i g)).0 ≢ (new_id (after j g)).0
unfolding new_id
new_id-distinct g i j h lt near e =
    let (a, p) = after-count i g h in
    let (b, q) = after-count j g h in
    let m = ((after i g).count + 1) % 2 ^ 64 in
    let n = ((after j g).count + 1) % 2 ^ 64 in
    let same : m ≡ n =
      key_injective g.prefix m n (ap (λ x. key x m) (sym p) ∙ e ∙ ap (λ x. key x n) q) in
    omega (arith, a, b, same)
