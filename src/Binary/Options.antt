-- ===== src/Binary/Options.antt =====
-- NewUpdaterOptions of pkg/upgradebin/upgradebin.go and the verifier of pkg/upgradebin/ed25519Verifier.go.
-- The patch and the exchange of the file, github.com/inconshreveable/go-update, are a parameter.
use alkasir.Base.{
  ◌≡◌, refl, ap, ◌∙◌, inl, inr, arith, Bool, true, false, not, Option, none, some, Str, length,
  ◌==◌, Option-cases, if◌then◌else◌,
}
use alkasir.Shared.Version.{Upgrade}
use alkasir.Binary.Keys.{
  Crypto, IsCrypto, KeyPair, IsPair, Result, ok, error, ◌>>=◌, not_decoded, decode_public_key,
  decode_signature,
}

-- `update.Options`, without the BSDiff patcher and SHA-256, which are always the same. The version is that
-- of the verifier.
pub record Options : Type 0 where
  pub target_version : Str
  pub checksum : Str
  pub signature : Str
  pub public_key : Str

unfoldable pub decode_sum : Crypto → Str → Result Str
decode_sum c text = elim (c.base64_decode text) [ none ↦ error not_decoded | some bytes ↦ ok bytes ]

unfoldable pub new_updater_options : Crypto → Upgrade → Str → Result Options
unfolding decode_sum decode_signature decode_public_key
new_updater_options c meta public_key = do
  sum ← decode_sum c meta.sha256_sum
  sig ← decode_signature c meta.ed25519_signature
  key ← decode_public_key c public_key
  ok (record { target_version = meta.version; checksum = sum; signature = sig; public_key = key })

-- The function of NewED25519Verifier; the text with the target version that it builds is not used. The key is
-- always one of 32 bytes.
unfoldable pub verify_signature : Crypto → Options → Str → Bool
verify_signature c o checksum =
    if not (length o.signature == 64) then false else c.verify o.public_key checksum o.signature

-- What Apply makes of a patch and the old file.
abbrev pub Apply : Type 0
Apply = Options → Str → Str → Option Str

-- Its documented behaviour: the patched file takes the place of the old one exactly if it has the checksum,
-- and the verifier accepts the signature of its checksum.
pub record IsApply (c : Crypto) (patch : Str → Str → Option Str) (apply : Apply) : Type 0 where
  pub applies :
      (o : Options) (diff old new : Str)
      → patch old diff ≡ some new
      → c.sha256 new ≡ o.checksum
      → verify_signature c o (c.sha256 new) ≡ true
      → apply o diff old ≡ some new
  pub applied :
      (o : Options) (diff old new : Str)
      → apply o diff old ≡ some new
      → (patch old diff ≡ some new)
        × (c.sha256 new ≡ o.checksum)
        × (verify_signature c o (c.sha256 new) ≡ true)

ok_inj {ℓ} : {A : Type ℓ} {a b : A} → ok a ≡ ok b → a ≡ b
ok_inj e = cc

-- The value that a chain with a result went on with.
went_on {ℓ κ} :
    {A : Type ℓ} {B : Type κ} {g : A → Result B} {end : B} (first : Result A)
    → (first >>= g) ≡ ok end
    → (v : A) × (g v ≡ ok end) × (first ≡ ok v)
went_on (error _) done = cc
went_on (ok v) done = (v, done, refl)

-- What options have been made of.
pub record IsMade (c : Crypto) (meta : Upgrade) (public_key : Str) (o : Options) : Type 0 where
  pub sum : decode_sum c meta.sha256_sum ≡ ok o.checksum
  pub sig : decode_signature c meta.ed25519_signature ≡ ok o.signature
  pub key : decode_public_key c public_key ≡ ok o.public_key

pub new_updater_options-IsMade :
    (c : Crypto) (meta : Upgrade) (public_key : Str) (o : Options)
    → new_updater_options c meta public_key ≡ ok o
    → IsMade c meta public_key o
unfolding new_updater_options
new_updater_options-IsMade c meta public_key o h =
    let (sum, h1, e) = went_on (decode_sum c meta.sha256_sum) h in
    let (sig, h2, f) = went_on (decode_signature c meta.ed25519_signature) h1 in
    let (key, h3, g) = went_on (decode_public_key c public_key) h2 in
    let same = ok_inj h3 in
    record {
      sum = e ∙ ap (λ x. ok x.checksum) same;
      sig = f ∙ ap (λ x. ok x.signature) same;
      key = g ∙ ap (λ x. ok x.public_key) same;
    }

pub decode_sum-decoded :
    (c : Crypto) (text sum : Str) → decode_sum c text ≡ ok sum → c.base64_decode text ≡ some sum
unfolding decode_sum
decode_sum-decoded c text sum h = elim (Option-cases (c.base64_decode text)) [
  | inl e ↦ cc (rw (e, decode_sum) at h)
  | inr (bytes, e) ↦ e ∙ ap some (ok_inj (rw (e, decode_sum) at h))
]

pub verify_signature-verified :
    (c : Crypto) (o : Options) (sum : Str)
    → verify_signature c o sum ≡ true
    → c.verify o.public_key sum o.signature ≡ true
unfolding verify_signature
verify_signature-verified c o sum h = ground arith

-- What is signed with the private key of a pair is verified, for every version.
pub verify_signature-signed :
    (c : Crypto) (k : KeyPair) (o : Options) (sum : Str)
    → IsCrypto c
    → IsPair c k
    → o.public_key ≡ k.public
    → o.signature ≡ c.sign k.private sum
    → verify_signature c o sum ≡ true
unfolding verify_signature
verify_signature-signed c k o sum w p key sig =
    rw (sig, verify_signature)
      (rw (w.signed k.private sum, verify_signature) (rw key (p.signs sum)))
