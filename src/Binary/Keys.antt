-- ===== src/Binary/Keys.antt =====
-- pkg/upgradebin/upgradebin.go: keys and signatures as text. PEM, Base64, SHA-256 and Ed25519 are parameters.
use alkasir.Base.{
  ℕ, ◌≡◌, refl, true, Bool, not, Option, none, some, arith, Str, str_eq, str_eq_refl, codes, length,
  ◌==◌, if◌then◌else◌,
}

-- `encoding/pem`, `base64.RawURLEncoding`, `crypto/sha256` and `github.com/agl/ed25519`.
pub record Crypto : Type 0 where
  pub pem_encode : Str → Str → Str
  pub pem_decode : Str → Option (Str × Str)
  pub base64_encode : Str → Str
  pub base64_decode : Str → Option Str
  pub sha256 : Str → Str
  pub sign : Str → Str → Str
  pub verify : Str → Str → Str → Bool

pub data KeyError : Type 0 where
  not_decoded invalid_type invalid_length : KeyError

pub data Result {ℓ} (A : Type ℓ) : Type ℓ where
  ok : A → Result A
  error : KeyError → Result A

infixl 5 ◌>>=◌
abbrev pub ◌>>=◌ {ℓ κ} : {A : Type ℓ} {B : Type κ} → Result A → (A → Result B) → Result B
ok a >>= f = f a
error e >>= f = error e

pub record KeyPair : Type 0 where
  pub public : Str
  pub private : Str

abbrev pub private_type : Str
private_type = codes "ALKASIR UPGRADES PRIVATE KEY"

abbrev pub public_type : Str
public_type = codes "ALKASIR UPGRADES PUBLIC KEY"

-- What DecodePrivateKey and DecodePublicKey have in common: the type and the length of the block.
unfoldable pub decode_block : Crypto → Str → ℕ → Str → Result Str
decode_block c type size text = elim (c.pem_decode text) [
  | none ↦ error not_decoded
  | some (found, bytes) ↦
      if not (str_eq found type)
      then error invalid_type
      else if not (length bytes == size)
      then error invalid_length
      else ok bytes
]

unfoldable pub decode_private_key : Crypto → Str → Result Str
unfolding decode_block
decode_private_key c text = decode_block c private_type 64 text

unfoldable pub decode_public_key : Crypto → Str → Result Str
unfolding decode_block
decode_public_key c text = decode_block c public_type 32 text

unfoldable pub decode_keys : Crypto → Str → Str → Result KeyPair
unfolding decode_private_key decode_public_key
decode_keys c priv pub_ = do
  public ← decode_public_key c pub_
  private ← decode_private_key c priv
  ok (record { public = public; private = private })

unfoldable pub decode_signature : Crypto → Str → Result Str
decode_signature c text = elim (c.base64_decode text) [
  | none ↦ error not_decoded
  | some bytes ↦ if not (length bytes == 64) then error invalid_length else ok bytes
]

unfoldable pub encode_keys : Crypto → KeyPair → Str × Str
encode_keys c k = (c.pem_encode private_type k.private, c.pem_encode public_type k.public)

-- The documented behaviour: what is encoded is decoded, a checksum has 32 bytes and a signature 64.
pub record IsCrypto (c : Crypto) : Type 0 where
  pub pem : (type bytes : Str) → c.pem_decode (c.pem_encode type bytes) ≡ some (type, bytes)
  pub base64 : (bytes : Str) → c.base64_decode (c.base64_encode bytes) ≡ some bytes
  pub signed : (key message : Str) → length (c.sign key message) ≡ 64

-- The keys belong together: what is signed with the one is verified with the other.
pub record IsPair (c : Crypto) (k : KeyPair) : Type 0 where
  pub public_size : length k.public ≡ 32
  pub private_size : length k.private ≡ 64
  pub signs : (message : Str) → c.verify k.public message (c.sign k.private message) ≡ true

pub decode_block-encode :
    (c : Crypto) (w : IsCrypto c) (type bytes : Str) (size : ℕ)
    → length bytes ≡ size
    → decode_block c type size (c.pem_encode type bytes) ≡ ok bytes
unfolding decode_block
decode_block-encode c w type bytes size h =
    rw (w.pem type bytes, decode_block) (ground (arith, str_eq_refl type))

-- Keys of the right lengths are read back as they were written.
pub decode_keys-encode :
    (c : Crypto) (k : KeyPair)
    → IsCrypto c
    → length k.public ≡ 32
    → length k.private ≡ 64
    → decode_keys c (encode_keys c k).0 (encode_keys c k).1 ≡ ok k
unfolding decode_keys encode_keys decode_private_key decode_public_key
decode_keys-encode c k w hp hs =
    rw (decode_block-encode c w public_type k.public 32 hp, ◌>>=◌)
      (rw (decode_block-encode c w private_type k.private 64 hs, ◌>>=◌) refl)

pub decode_signature-encode :
    (c : Crypto) (key message : Str)
    → IsCrypto c
    → decode_signature c (c.base64_encode (c.sign key message)) ≡ ok (c.sign key message)
unfolding decode_signature
decode_signature-encode c key message w =
    rw (w.base64 (c.sign key message), decode_signature) (ground (arith, w.signed key message))
