-- ===== src/Shared/Connection.antt =====
-- pkg/shared/connection.go and transport.go: a transport connection, its id and its shareable form.
-- Base64, JSON and SHA-256 are the operations of a record; what is relied on of them is in the
-- record of their laws.
pub mod Codec
mod Tests
use alkasir.Base.{
  ℕ, ◌≡◌, ◌≢◌, Bool, true, false, Option, none, some, List, [], ◌∷◌, ◌++◌, ltb, Str, codes, str_eq,
  length, take, drop, not, All, if◌then◌else◌,
}
use alkasir.Base.Trim.{trim_space, IsVisible}

pub record Connection : Type 0 where
  pub transport : Str
  pub secret : Str
  pub addr : Str
  pub disabled : Bool
  pub protected : Bool
  pub id : Str

-- `json_encode` writes the object of Encode from transport, secret and address; `json_decode` fills
-- a Connection from an object. `hash` is SHA-256 followed by unpadded Base64.
pub record Formats : Type 0 where
  pub base64_encode : Str → Str
  pub base64_decode : Str → Option Str
  pub json_encode : Str → Str → Str → Str
  pub json_decode : Str → Option Connection
  pub valid_utf8 : Str → Bool
  pub hash : Str → Str

-- What Encode keeps of a connection.
abbrev pub bare : Str → Str → Str → Connection
bare transport secret addr = record {
  transport = transport;
  secret = secret;
  addr = addr;
  disabled = false;
  protected = false;
  id = [];
}

-- The documented behaviour of the packages: Base64 text decodes to its bytes, is made of visible
-- ASCII characters and is empty only for no bytes; an object of UTF-8 strings is read back with the
-- fields that it does not hold at their zero values, and is never the empty text.
pub record IsFaithful (f : Formats) : Type 0 where
  pub base64_back : (b : Str) → f.base64_decode (f.base64_encode b) ≡ some b
  pub base64_visible : (b : Str) → All IsVisible (f.base64_encode b)
  pub base64_some : (b : Str) → b ≢ [] → f.base64_encode b ≢ []
  pub json_back :
      (t s a : Str)
      → f.valid_utf8 t ≡ true
      → f.valid_utf8 s ≡ true
      → f.valid_utf8 a ≡ true
      → f.json_decode (f.json_encode t s a) ≡ some (bare t s a)
  pub json_some : (t s a : Str) → f.json_encode t s a ≢ []

-- ShareableTansportConnectionVersion
abbrev pub shareable_version : Str
shareable_version = codes "ai"

pub data DecodeError : Type 0 where
  too_short unknown_version bad_base64 bad_json : DecodeError

pub data Decoded : Type 0 where
  ok : Connection → Decoded
  err : DecodeError → Decoded

-- What is written into the hash, in this order.
unfoldable pub id_text : Connection → Str
id_text c =
    codes "ADDR" ++ (c.addr ++ (codes "TRANSPORT" ++ (c.transport ++ (codes "SECRET" ++ c.secret))))

module _ (f : Formats) where
  unfoldable pub ensure_id : Connection → Connection
  ensure_id c = if str_eq c.id [] then record c { id = f.hash (id_text c) } else c

  unfoldable pub encode : Connection → Str
  encode t = shareable_version ++ f.base64_encode (f.json_encode t.transport t.secret t.addr)

  decode_data : Str → Decoded
  decode_data text = elim (f.base64_decode text) [
    | none ↦ err bad_base64
    | some bytes ↦ elim (f.json_decode bytes) [ none ↦ err bad_json | some c ↦ ok c ]
  ]

  decode_text : Str → Decoded
  decode_text s =
      if ltb (length s) 3
      then err too_short
      else if not (str_eq (take 2 s) shareable_version)
      then err unknown_version
      else decode_data (drop 2 s)

  unfoldable pub decode : Str → Decoded
  unfolding decode_data decode_text
  decode s = decode_text (trim_space s)

  unfoldable pub decode_connection : Str → Decoded
  decode_connection s = elim (decode s) [ ok c ↦ ok (ensure_id c) | err e ↦ err e ]
