-- ===== src/Client/BrowserCode/Laws.antt =====
-- Reading back what was written.
use alkasir.Base.{
  ℕ, suc, ◌+◌, ◌≡◌, ◌≢◌, ◌≤◌, ◌<◌, refl, ◌∙◌, ap, inl, inr, false, ◌==◌, Option, none, some, List,
  [], ◌∷◌, ◌++◌, arith, Str, str_eq, str_eq_iff, codes, length, All, Bool-cases, if◌then◌else◌,
}
use alkasir.Client.BrowserCode.{
  BrowserCode, colon, cons_first, split, written_host, encode, read_host, of_parts, decode,
  set_hostport, new,
}

abbrev pub HasNoColon : Str → Type 0
HasNoColon s = All (λ a. a ≢ b':') s

abbrev pub colons : Str → ℕ
colons [] = 0
colons (a ∷ s) = (if a == b':' then 1 else 0) + colons s

length-cons_first : (a : ℕ) (ps : List Str) → 0 < length ps → length (cons_first a ps) ≡ length ps
length-cons_first a [] h = omega arith
length-cons_first a (p ∷ ps) h = refl

length-split : (s : Str) → length (split s) ≡ suc (colons s)
unfolding split
length-split [] = refl
length-split (a ∷ s) = ground (arith, length-split s, length-cons_first a (split s))

colons-append : (s t : Str) → colons (s ++ t) ≡ colons s + colons t
colons-append [] t = omega arith
colons-append (a ∷ s) t = omega (arith, colons-append s t)

of_parts-long : (ps : List Str) → 3 < length ps → of_parts ps ≡ none
unfolding of_parts
of_parts-long [] h = refl
of_parts-long (_ ∷ []) h = refl
of_parts-long (_ ∷ _ ∷ []) h = refl
of_parts-long (a ∷ b ∷ c ∷ []) h = absurd (omega (arith, h))
of_parts-long (_ ∷ _ ∷ _ ∷ _ ∷ _) h = refl

colon-other : (h t : Str) → 1 ≤ colons h → colons t ≡ 0 → str_eq h t ≡ false
colon-other h t c e = elim (Bool-cases (str_eq h t)) [
  | inl same ↦ absurd (omega (arith, c, e, ap colons ((str_eq_iff h t).0 same)))
  | inr ne ↦ ne
]

read_host-colon : (h : Str) → 1 ≤ colons h → read_host h ≡ h
unfolding read_host
read_host-colon h c = rw (colon-other h [] c refl, read_host) refl

written_host-colon : (h : Str) → 1 ≤ colons h → written_host h ≡ h
unfolding written_host
written_host-colon h c =
    rw (colon-other h (codes "localhost") c (omega arith), written_host)
      (rw (colon-other h (codes "127.0.0.1") c (omega arith), written_host) refl)

-- Where the address that a code is made for has a host with a colon, as one of IPv6 has, the code is made
-- and written, but what is written cannot be read.
pub decode-encode-new :
    (split_host_port : Str → Option (Str × Str)) (key hostport host port : Str)
    → split_host_port hostport ≡ some (host, port)
    → 1 ≤ colons host
    → port ≢ []
    → key ≢ []
    → (b : BrowserCode) × (s : Str) × (new split_host_port key hostport ≡ some b)
      × (encode b ≡ some s)
      × (decode s ≡ none)
unfolding new set_hostport encode decode
decode-encode-new shp key hostport host port e c some_port some_key =
    let b : BrowserCode = record { key = key; host = read_host host; port = port } in
    let w : Str = written_host (read_host host) in
    let same : w ≡ host = ap written_host (read_host-colon host c) ∙ written_host-colon host c in
    let s : Str = key ++ (colon ∷ (w ++ (colon ∷ port))) in
    let many : 3 ≤ colons s = omega (
      arith,
      colons-append key (colon ∷ (w ++ (colon ∷ port))),
      colons-append w (colon ∷ port),
      ap colons same,
      c,
    ) in
    (
      b,
      s,
      rw (e, new) (ground (arith, str_eq_iff port [], some_port)),
      ground (arith, str_eq_iff key [], some_key),
      of_parts-long (split s) (omega (arith, length-split s, many)),
    )
