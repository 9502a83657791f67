-- ===== src/Base/Trim.antt =====
-- `strings.TrimSpace` on the bytes of a string: the UTF-8 codes of Unicode's white space are taken
-- off both ends as long as there are any. On fuel, the length, since each takes a byte at least.
use Prim.Native.Nat.{ℕ, zero, suc, ◌≤◌, ◌<◌}
use mathlib.Core.Path.{◌≡◌, refl, sym, ap, ◌∙◌}
use mathlib.Core.Logic.{◌≢◌, inl, inr}
use mathlib.Core.Option.{Option, none, some}
use mathlib.Core.List.{
  List, [], ◌∷◌, ◌++◌, map, reverse, reverse-reverse, reverse-append, reverse-cons, append_assoc,
}
use native.Mathlib.Omega.{arith}
use alkasir.Base.Tests.{Option-cases}
use alkasir.Base.Lists.{length, length-append, All}
use alkasir.Base.Text.{Str, strip_prefix, append_of_strip_prefix}

-- U+2000 to U+200A begin with the bytes E2 80.
abbrev spaces : List Str
spaces =
    (9 ∷ [])
    ∷ (10 ∷ [])
    ∷ (11 ∷ [])
    ∷ (12 ∷ [])
    ∷ (13 ∷ [])
    ∷ (32 ∷ [])
    ∷ (0xc2 ∷ 0x85 ∷ [])
    ∷ (0xc2 ∷ 0xa0 ∷ [])
    ∷ (0xe1 ∷ 0x9a ∷ 0x80 ∷ [])
    ∷ (0xe2 ∷ 0x80 ∷ 0x80 ∷ [])
    ∷ (0xe2 ∷ 0x80 ∷ 0x81 ∷ [])
    ∷ (0xe2 ∷ 0x80 ∷ 0x82 ∷ [])
    ∷ (0xe2 ∷ 0x80 ∷ 0x83 ∷ [])
    ∷ (0xe2 ∷ 0x80 ∷ 0x84 ∷ [])
    ∷ (0xe2 ∷ 0x80 ∷ 0x85 ∷ [])
    ∷ (0xe2 ∷ 0x80 ∷ 0x86 ∷ [])
    ∷ (0xe2 ∷ 0x80 ∷ 0x87 ∷ [])
    ∷ (0xe2 ∷ 0x80 ∷ 0x88 ∷ [])
    ∷ (0xe2 ∷ 0x80 ∷ 0x89 ∷ [])
    ∷ (0xe2 ∷ 0x80 ∷ 0x8a ∷ [])
    ∷ (0xe2 ∷ 0x80 ∷ 0xa8 ∷ [])
    ∷ (0xe2 ∷ 0x80 ∷ 0xa9 ∷ [])
    ∷ (0xe2 ∷ 0x80 ∷ 0xaf ∷ [])
    ∷ (0xe2 ∷ 0x81 ∷ 0x9f ∷ [])
    ∷ (0xe3 ∷ 0x80 ∷ 0x80 ∷ [])
    ∷ []

-- The rest behind the first of the prefixes that fits.
strip_any : List Str → Str → Option Str
strip_any [] s = none
strip_any (p ∷ ps) s =
    let later = strip_any ps s in elim (strip_prefix p s) [ none ↦ later | some r ↦ some r ]

trim_left : List Str → ℕ → Str → Str
trim_left ps zero s = s
trim_left ps (suc f) s = elim (strip_any ps s) [ none ↦ s | some r ↦ trim_left ps f r ]

-- Both ends, for any table of prefixes.
trim_both : List Str → Str → Str
unfolding trim_left strip_any strip_prefix
trim_both ps s =
    let t = trim_left ps (length s) s in reverse (trim_left (map reverse ps) (length t) (reverse t))

unfoldable pub trim_space : Str → Str
unfolding trim_both
trim_space s = trim_both spaces s

trim_left_same : (ps : List Str) (f : ℕ) (s : Str) → strip_any ps s ≡ none → trim_left ps f s ≡ s
unfolding trim_left
trim_left_same ps zero s e = refl
trim_left_same ps (suc f) s e = rw (trim_left, e)

trim_both_same :
    (ps : List Str) (s : Str)
    → strip_any ps s ≡ none
    → strip_any (map reverse ps) (reverse s) ≡ none
    → trim_both ps s ≡ s
unfolding trim_both
trim_both_same ps s l r =
    rw (trim_left_same ps (length s) s l, trim_left_same (map reverse ps) (length s) (reverse s) r)
      (reverse-reverse s)

-- A prefix of `u` is a prefix of every text that `u` begins.
strip_prefix-append_right :
    (p u v r : Str) → strip_prefix p u ≡ some r → strip_prefix p (u ++ v) ≡ some (r ++ v)
unfolding strip_prefix
strip_prefix-append_right [] u v r e = ground arith
strip_prefix-append_right (_ ∷ _) [] v r e = cc
strip_prefix-append_right (a ∷ p) (b ∷ u) v r e = ground (arith, strip_prefix-append_right p u v r)

strip_any-append_right :
    (ps : List Str) (u v : Str) → strip_any ps (u ++ v) ≡ none → strip_any ps u ≡ none
unfolding strip_any
strip_any-append_right [] u v e = refl
strip_any-append_right (p ∷ ps) u v e = elim (Option-cases (strip_prefix p u)) [
  | inl off ↦ ground (arith, strip_any-append_right ps u v)
  | inr (r, on) ↦ ground (arith, strip_prefix-append_right p u v r on)
]

abbrev IsNonempty : Str → Type 0
IsNonempty p = p ≢ []

length-pos : (p : Str) → p ≢ [] → 0 < length p
length-pos [] h = absurd (h refl)
length-pos (_ ∷ p) h = omega arith

length-reverse : (s : Str) → length (reverse s) ≡ length s
length-reverse [] = refl
length-reverse (c ∷ s) =
    ap (λ (x : Str). length x) (reverse-cons c s)
    ∙ omega (arith, length-append (reverse s) (c ∷ []), length-reverse s)

-- What is taken off is a prefix and not empty.
strip_any-shorter :
    (ps : List Str) (s r : Str)
    → All IsNonempty ps
    → strip_any ps s ≡ some r
    → (p : Str) × (s ≡ p ++ r) × (length r < length s)
unfolding strip_any
strip_any-shorter [] s r h e = cc
strip_any-shorter (p ∷ ps) s r (ne, h) e = elim (Option-cases (strip_prefix p s)) [
  | inl off ↦ strip_any-shorter ps s r h (ground arith)
  | inr (t, on) ↦
      let same : t ≡ r = ground arith in
      let parts = append_of_strip_prefix p s r (on ∙ ap some same) in
      (
        p,
        parts,
        omega (arith, length-pos p ne, ap (λ (x : Str). length x) parts, length-append p r),
      )
]

-- With the length as fuel, nothing is left to take off, and a part at the front is gone.
trim_left-done :
    (ps : List Str) (f : ℕ) (s : Str)
    → All IsNonempty ps
    → length s ≤ f
    → (strip_any ps (trim_left ps f s) ≡ none) × (gone : Str) × (s ≡ gone ++ trim_left ps f s)
unfolding trim_left
trim_left-done ps zero s h le = elim (Option-cases (strip_any ps s)) [
  | inl off ↦ (off, [], refl)
  | inr (r, on) ↦ let (_, _, short) = strip_any-shorter ps s r h on in absurd (omega arith)
]
trim_left-done ps (suc f) s h le = elim (Option-cases (strip_any ps s)) [
  | inl off ↦ rw (trim_left, off) (off, [], refl)
  | inr (r, on) ↦
      let (p, parts, short) = strip_any-shorter ps s r h on in
      let (done, gone, rest) = trim_left-done ps f r h (omega arith) in
      rw (trim_left, on)
        (
          done,
          p ++ gone,
          parts ∙ ap (λ x. p ++ x) rest ∙ sym (append_assoc p gone (trim_left ps f r)),
        )
]

trim_both_idem :
    (ps : List Str) (s : Str)
    → All IsNonempty ps
    → All IsNonempty (map reverse ps)
    → trim_both ps (trim_both ps s) ≡ trim_both ps s
trim_both_idem ps s h k =
    let t = trim_left ps (length s) s in
    let w = trim_left (map reverse ps) (length t) (reverse t) in
    let (left_done, _, _) = trim_left-done ps (length s) s h (omega arith) in
    let (right_done, gone, parts) =
      trim_left-done (map reverse ps) (length t) (reverse t) k (omega (arith, length-reverse t)) in
    let back : t ≡ reverse w ++ reverse gone =
      sym (reverse-reverse t) ∙ ap reverse parts ∙ reverse-append gone w in
    unfold trim_both in
    trim_both_same ps (reverse w)
      (strip_any-append_right ps (reverse w) (reverse gone) (rw back at left_done))
      (rw reverse-reverse right_done)

-- Trimming a second time changes nothing.
pub trim_space_idem : (s : Str) → trim_space (trim_space s) ≡ trim_space s
unfolding trim_space
trim_space_idem s = trim_both_idem spaces s (ground arith) (ground arith)

-- A text that begins and ends with visible ASCII characters is left alone.
abbrev IsOther : ℕ → Str → Type 0
IsOther c [] = ⊥
IsOther c (a ∷ _) = a ≢ c

strip_any-none :
    (ps : List Str) (c : ℕ) (s : Str) → All (IsOther c) ps → strip_any ps (c ∷ s) ≡ none
unfolding strip_any strip_prefix
strip_any-none [] c s h = refl
strip_any-none ([] ∷ ps) c s (ne, h) = absurd ne
strip_any-none ((a ∷ p) ∷ ps) c s (ne, h) = ground (arith, strip_any-none ps c s h)

abbrev pub IsVisible : ℕ → Type 0
IsVisible c = (32 < c) × (c < 127)

pub trim_space_visible :
    (w s t : Str) (c d : ℕ)
    → w ≡ c ∷ s
    → w ≡ t ++ d ∷ []
    → IsVisible c
    → IsVisible d
    → trim_space w ≡ w
unfolding trim_space
trim_space_visible w s t c d front back vc vd =
    trim_both_same spaces w (rw front (strip_any-none spaces c s (omega arith)))
      (rw (back, reverse-append) (strip_any-none (map reverse spaces) d (reverse t) (omega arith)))
