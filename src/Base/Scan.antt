-- ===== src/Base/Scan.antt =====
-- Go's `bufio.Scanner` in its default mode, on a stream that has ended: the lines, each without its
-- newline and one carriage return before it, up to the first that does not fit the buffer. (The
-- program reads hosts files and the output of services with it.) Written lines are read back.
use Prim.Native.Nat.{ℕ, ◌<◌}
use mathlib.Core.Path.{◌≡◌, refl, ap}
use mathlib.Core.Logic.{◌≢◌}
use mathlib.Core.Bool.{Bool, true, false}
use mathlib.Core.Option.{some}
use mathlib.Core.List.{List, [], ◌∷◌, ◌++◌}
use native.Mathlib.Omega.{arith}
use alkasir.Base.Tests.{ltb, ◌==◌, if◌then◌else◌}
use alkasir.Base.Lists.{length, last?, All}
use alkasir.Base.Text.{Str}

abbrev pub newline : ℕ
newline = 10

abbrev pub carriage_return : ℕ
carriage_return = 13

-- `bufio.MaxScanTokenSize`
abbrev pub max_token : ℕ
max_token = 65536

-- Puts a byte before the first line.
abbrev lead : ℕ → List Str → List Str
lead c [] = (c ∷ []) ∷ []
lead c (l ∷ ls) = (c ∷ l) ∷ ls

unfoldable pub split_lines : Str → List Str
split_lines [] = []
split_lines (c ∷ s) = let rest = split_lines s in if c == newline then [] ∷ rest else lead c rest

unfoldable pub drop_cr : Str → Str
drop_cr [] = []
drop_cr (c ∷ []) = if c == carriage_return then [] else c ∷ []
drop_cr (c ∷ d ∷ s) = c ∷ drop_cr (d ∷ s)

-- The tokens, and whether the scan stopped at a line that is too long.
unfoldable pub tokens : ℕ → List Str → List Str × Bool
unfolding drop_cr
tokens limit [] = ([], false)
tokens limit (l ∷ ls) =
    let (ts, failed) = tokens limit ls in
    if ltb (length l) limit then (drop_cr l ∷ ts, failed) else ([], true)

unfoldable pub scan : Str → List Str × Bool
unfolding split_lines tokens
scan s = tokens max_token (split_lines s)

-- What `fmt.Fprintln` writes for the lines.
unfoldable pub write_lines : List Str → Str
write_lines [] = []
write_lines (l ∷ ls) = l ++ newline ∷ write_lines ls

-- A line that survives: no newline in it, no carriage return at its end, and short enough.
abbrev pub NoNewline : Str → Type 0
NoNewline = All (λ c. c ≢ newline)

abbrev pub IsLine : Str → Type 0
IsLine l = NoNewline l × (last? l ≢ some carriage_return) × (length l < max_token)

split_lines-line : (l s : Str) → NoNewline l → split_lines (l ++ newline ∷ s) ≡ l ∷ split_lines s
unfolding split_lines
split_lines-line [] s h = refl
split_lines-line (c ∷ l) s (ne, h) = ground (arith, split_lines-line l s h)

drop_cr_same : (l : Str) → last? l ≢ some carriage_return → drop_cr l ≡ l
unfolding drop_cr
drop_cr_same [] h = refl
drop_cr_same (c ∷ []) h = ground arith
drop_cr_same (c ∷ d ∷ s) h = ap (λ t. c ∷ t) (drop_cr_same (d ∷ s) h)

tokens-write_lines :
    (limit : ℕ) (ls : List Str)
    → All (λ l. NoNewline l × (last? l ≢ some carriage_return) × (length l < limit)) ls
    → tokens limit (split_lines (write_lines ls)) ≡ (ls, false)
unfolding write_lines tokens
tokens-write_lines limit [] h = unfold split_lines in refl
tokens-write_lines limit (l ∷ ls) ((plain, end, short), h) =
    rw (split_lines-line l (write_lines ls) plain)
      (ground (arith, drop_cr_same l end, tokens-write_lines limit ls h))

pub scan-write_lines : (ls : List Str) → All IsLine ls → scan (write_lines ls) ≡ (ls, false)
unfolding scan
scan-write_lines ls h = tokens-write_lines max_token ls h
