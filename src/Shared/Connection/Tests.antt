-- ===== src/Shared/Connection/Tests.antt =====
-- A small pair of formats that keeps the laws, and a connection through it.
use alkasir.Base.{
  ℕ, zero, suc, ◌≡◌, refl, ◌≢◌, ap, true, false, Option, some, [], ◌∷◌, arith, Str, codes, ◌==◌,
  ◌+◌, All,
}
use alkasir.Base.Trim.{IsVisible}
use alkasir.Shared.Connection.{Connection, Formats, IsFaithful, bare, ok, encode, decode}
use alkasir.Shared.Connection.Codec.{decode-encode}

-- A byte as that many letters a and one b.
spell : ℕ → Str → Str
spell zero s = b'b' ∷ s
spell (suc n) s = b'a' ∷ spell n s

spell_all : Str → Str
spell_all [] = []
spell_all (c ∷ s) = spell c (spell_all s)

count_up : ℕ → Str → Str
count_up n [] = []
count_up n (c ∷ s) = elim (c == b'a') [ true ↦ count_up (suc n) s | false ↦ n ∷ count_up 0 s ]

count_up-spell : (n k : ℕ) (s : Str) → count_up k (spell n s) ≡ (k + n) ∷ count_up 0 s
unfolding count_up spell
count_up-spell zero k s = ground arith
count_up-spell (suc n) k s = ground (arith, count_up-spell n (suc k) s)

count_up-spell_all : (s : Str) → count_up 0 (spell_all s) ≡ s
unfolding spell_all count_up
count_up-spell_all [] = refl
count_up-spell_all (c ∷ s) = ground (arith, count_up-spell c 0 (spell_all s), count_up-spell_all s)

spell-IsVisible : (n : ℕ) (s : Str) → All IsVisible s → All IsVisible (spell n s)
unfolding spell
spell-IsVisible zero s v = (omega arith, v)
spell-IsVisible (suc n) s v = (omega arith, spell-IsVisible n s v)

spell_all-IsVisible : (s : Str) → All IsVisible (spell_all s)
unfolding spell_all
spell_all-IsVisible [] = tt
spell_all-IsVisible (c ∷ s) = spell-IsVisible c (spell_all s) (spell_all-IsVisible s)

spell-some : (n : ℕ) (s : Str) → spell n s ≢ []
unfolding spell
spell-some zero s e = cc
spell-some (suc n) s e = cc

spell_all-some : (s : Str) → s ≢ [] → spell_all s ≢ []
unfolding spell_all
spell_all-some [] ne = absurd (ne refl)
spell_all-some (c ∷ s) ne = spell-some c (spell_all s)

-- A text closed by a 0, each of its bytes behind a 1.
frame : Str → Str → Str
frame [] s = 0 ∷ s
frame (c ∷ t) s = 1 ∷ c ∷ frame t s

-- The text in front, and what follows it.
unframe : Str → Str × Str
unframe [] = ([], [])
unframe (zero ∷ s) = ([], s)
unframe (suc n ∷ []) = ([], [])
unframe (suc n ∷ c ∷ s) = let (t, rest) = unframe s in (c ∷ t, rest)

unframe-frame : (t s : Str) → unframe (frame t s) ≡ (t, s)
unfolding frame unframe
unframe-frame [] s = refl
unframe-frame (c ∷ t) s = ground (arith, unframe-frame t s)

unpack : Str → Option Connection
unfolding unframe
unpack s =
    let (t, s') = unframe s in
    let (k, s'') = unframe s' in let (a, rest) = unframe s'' in some (bare t k a)

unpack-frame : (t k a : Str) → unpack (frame t (frame k (frame a []))) ≡ some (bare t k a)
unfolding unpack
unpack-frame t k a =
    rw (unframe-frame t (frame k (frame a [])), unframe-frame k (frame a []), unframe-frame a [])

frame-some : (t s : Str) → frame t s ≢ []
unfolding frame
frame-some [] s e = cc
frame-some (c ∷ t) s e = cc

abbrev plain : Formats
plain = record {
  base64_encode = spell_all;
  base64_decode = λ s. some (count_up 0 s);
  json_encode = λ t k a. frame t (frame k (frame a []));
  json_decode = unpack;
  valid_utf8 = λ s. true;
  hash = λ s. 7 ∷ s;
}

plain-IsFaithful : IsFaithful plain
plain-IsFaithful = record {
  base64_back = λ b. ap some (count_up-spell_all b);
  base64_visible = spell_all-IsVisible;
  base64_some = spell_all-some;
  json_back = λ t s a _ _ _. unpack-frame t s a;
  json_some = λ t s a. frame-some t (frame s (frame a []));
}

abbrev bridge : Connection
bridge = record {
  transport = codes "obfs4";
  secret = codes "k";
  addr = codes "10.0.0.1:443";
  disabled = true;
  protected = true;
  id = [];
}

decode-encode_example :
    decode plain (encode plain bridge)
    ≡ ok (bare (codes "obfs4") (codes "k") (codes "10.0.0.1:443"))
decode-encode_example = decode-encode plain plain-IsFaithful bridge refl refl refl
