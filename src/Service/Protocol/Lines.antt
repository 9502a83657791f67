-- ===== src/Service/Protocol/Lines.antt =====
-- Every line that a transport process prints is read as what was meant.
use mathlib.Core.List.{append-nil}
use alkasir.Base.{◌≡◌, refl, ◌≢◌, true, none, some, [], ◌∷◌, ◌++◌, arith, Str, codes, All}
use alkasir.Service.Server.Lines.{
  MethodHandler, arg_is_safe, write_args, version_line, done_line, print_error, print_parent,
  print_expose,
}
use alkasir.Service.Protocol.{
  split_space, three_words, error, done, expose, version, parent, parse_line, some_word, last_word,
}

abbrev pub NoSpace : Str → Type 0
NoSpace = All (λ c. c ≢ b' ')

-- A word that may stand between spaces, of bytes that the server may print.
abbrev pub IsWord : Str → Type 0
IsWord w = NoSpace w × (w ≢ []) × (arg_is_safe w ≡ true)

split_space-word : (w s : Str) → NoSpace w → split_space (w ++ b' ' ∷ s) ≡ (w, some s)
unfolding split_space
split_space-word [] s h = refl
split_space-word (c ∷ w) s (ne, h) = ground (arith, split_space-word w s h)

split_space_end : (w : Str) → NoSpace w → split_space w ≡ (w, none)
unfolding split_space
split_space_end [] h = refl
split_space_end (c ∷ w) (ne, h) = ground (arith, split_space_end w h)

some_word_lem : (w s : Str) → w ≢ [] → some_word (w, some s) ≡ some (w, s)
some_word_lem [] s h = absurd (h refl)
some_word_lem (c ∷ w) s h = refl

last_word_lem : (w : Str) → w ≢ [] → last_word (w, none) ≡ some w
last_word_lem [] h = absurd (h refl)
last_word_lem (c ∷ w) h = refl

three_words-words :
    (a b c : Str)
    → IsWord a
    → IsWord b
    → IsWord c
    → three_words (a ++ b' ' ∷ (b ++ b' ' ∷ c)) ≡ some (a, b, c)
unfolding three_words
three_words-words a b c (na, ea, _) (nb, eb, _) (nc, ec, _) = rw (
  split_space-word a (b ++ b' ' ∷ c) na,
  some_word_lem a (b ++ b' ' ∷ c) ea,
  split_space-word b c nb,
  some_word_lem b c eb,
  split_space_end c nc,
  last_word_lem c ec,
)

-- What the server writes for three safe words.
write_args-three :
    (a b c : Str)
    → IsWord a
    → IsWord b
    → IsWord c
    → write_args (a ∷ b ∷ c ∷ []) ≡ some (b' ' ∷ a ++ b' ' ∷ (b ++ b' ' ∷ c))
unfolding write_args
write_args-three a b c (_, _, sa) (_, _, sb) (_, _, sc) = ground (arith, append-nil c)

module _ (h : MethodHandler) (protocol addr : Str) (hm : IsWord h.method) (hp : IsWord protocol)
    (ha : IsWord addr) where
  abbrev three : Str
  three = h.method ++ b' ' ∷ (protocol ++ b' ' ∷ addr)

  -- An EXPOSE line with three words is printed, and read with the same three.
  pub parse_line-print_expose :
      (line : Str) × (print_expose h protocol addr ≡ some line)
      × (parse_line line ≡ expose h.method protocol addr)
  unfolding print_expose parse_line
  parse_line-print_expose = (
    codes "EXPOSE" ++ b' ' ∷ three,
    rw (write_args-three h.method protocol addr hm hp ha),
    rw (three_words-words h.method protocol addr hm hp ha),
  )

  -- So is a PARENT line.
  pub parse_line-print_parent :
      (line : Str) × (print_parent h protocol addr ≡ some line)
      × (parse_line line ≡ parent h.method protocol addr)
  unfolding print_parent parse_line
  parse_line-print_parent = (
    codes "PARENT" ++ b' ' ∷ three,
    rw (write_args-three h.method protocol addr hm hp ha),
    rw (three_words-words h.method protocol addr hm hp ha),
  )

-- The other lines: DONE, VERSION with any safe version, ERROR with any safe text.
pub parse_line-others :
    (h : MethodHandler) (text : Str)
    → arg_is_safe h.method ≡ true
    → arg_is_safe h.version ≡ true
    → arg_is_safe text ≡ true
    → (finish greeting failure : Str) × (done_line ≡ some finish)
      × (version_line h ≡ some greeting)
      × (print_error h text ≡ some failure)
      × (parse_line finish ≡ done)
      × (parse_line greeting ≡ version)
      × (parse_line failure ≡ error)
unfolding done_line version_line print_error parse_line
parse_line-others h text sm sv st = (
  codes "DONE",
  codes "VERSION" ++ b' ' ∷ (h.version ++ []),
  codes "ERROR" ++ b' ' ∷ (h.method ++ b' ' ∷ (text ++ [])),
  refl,
  ground arith,
  ground arith,
  refl,
  refl,
  refl,
)
