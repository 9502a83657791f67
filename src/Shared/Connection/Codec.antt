-- ===== src/Shared/Connection/Codec.antt =====
-- The shareable form of a connection, there and back; and what an id tells apart.
use mathlib.Core.List.{append_assoc}
use alkasir.Base.{
  ℕ, ◌≡◌, refl, ◌≢◌, ◌∙◌, ap, true, false, [], ◌∷◌, ◌++◌, arith, Str, codes, str_eq, length, All,
  ltb,
}
use alkasir.Base.Trim.{trim_space, trim_space_idem, trim_space_visible, IsVisible}
use alkasir.Shared.Connection.{
  Connection, Formats, IsFaithful, bare, shareable_version, ok, id_text, ensure_id, encode,
  decode_data, decode_text, decode, decode_connection,
}

ends_visibly :
    (s : Str) → s ≢ [] → All IsVisible s → (t : Str) × (c : ℕ) × (s ≡ t ++ c ∷ []) × IsVisible c
ends_visibly [] ne v = absurd (ne refl)
ends_visibly (c ∷ []) ne v = ([], c, refl, v.0)
ends_visibly (c ∷ d ∷ s) ne (_, v) =
    let (t, e, parts, last) = ends_visibly (d ∷ s) (λ p. cc p) v in
    (c ∷ t, e, ap (λ x. c ∷ x) parts, last)

module _ (f : Formats) where
  -- A text of the right form is decoded from its data.
  decode_versioned :
      (text : Str)
      → text ≢ []
      → trim_space (shareable_version ++ text) ≡ shareable_version ++ text
      → decode f (shareable_version ++ text) ≡ decode_data f text
  unfolding decode_text str_eq
  decode_versioned [] ne t = absurd (ne refl)
  decode_versioned (c ∷ s) ne t =
      let long : ltb (length (shareable_version ++ c ∷ s)) 3 ≡ false = ground arith in
      unfold decode in rw (t, long)

  -- Decoding does not see white space at the ends.
  pub decode_trimmed : (s : Str) → decode f (trim_space s) ≡ decode f s
  unfolding decode
  decode_trimmed s = ap (decode_text f) (trim_space_idem s)

module _ (f : Formats) (laws : IsFaithful f) where
  -- With the laws of the formats, and fields that are valid UTF-8, decoding what Encode gives
  -- yields the connection with its flags and its id cleared.
  pub decode-encode :
      (c : Connection)
      → f.valid_utf8 c.transport ≡ true
      → f.valid_utf8 c.secret ≡ true
      → f.valid_utf8 c.addr ≡ true
      → decode f (encode f c) ≡ ok (bare c.transport c.secret c.addr)
  unfolding encode decode_data
  decode-encode c vt vs va =
      let bytes = f.json_encode c.transport c.secret c.addr in
      let text = f.base64_encode bytes in
      let ne = laws.base64_some bytes (laws.json_some c.transport c.secret c.addr) in
      let (t, e, parts, last) = ends_visibly text ne (laws.base64_visible bytes) in
      decode_versioned f text ne (
        trim_space_visible (shareable_version ++ text) (codes "i" ++ text) (shareable_version ++ t)
          b'a' e refl (ap (λ x. shareable_version ++ x) parts) (omega arith) last)
      ∙ rw
          (laws.base64_back bytes, decode_data, laws.json_back c.transport c.secret c.addr vt vs va)

  -- With the laws of the formats, and fields that are valid UTF-8, a connection that has no id
  -- comes back from Encode and DecodeConnection as EnsureID makes it, with its flags cleared.
  pub decode_connection-encode :
      (c : Connection)
      → f.valid_utf8 c.transport ≡ true
      → f.valid_utf8 c.secret ≡ true
      → f.valid_utf8 c.addr ≡ true
      → c.id ≡ []
      → decode_connection f (encode f c)
        ≡ ok (record (ensure_id f c) { disabled = false; protected = false })
  unfolding decode_connection ensure_id id_text str_eq
  decode_connection-encode c vt vs va fresh =
      rw (decode-encode c vt vs va, decode_connection, fresh)

-- Two connections that have no id yet get the same id where the word TRANSPORT stands in the
-- transport of the one and in the address of the other: the hashed texts are run together.
pub ensure_id-collides :
    (f : Formats) (c : Connection) (x y z : Str)
    → c.id ≡ []
    → let one = record c { addr = x; transport = y ++ (codes "TRANSPORT" ++ z) } in
      let two = record c { addr = x ++ (codes "TRANSPORT" ++ y); transport = z } in
      (ensure_id f one).id ≡ (ensure_id f two).id
unfolding ensure_id id_text str_eq
ensure_id-collides f c x y z fresh = rw fresh (ap f.hash (simp append_assoc))
