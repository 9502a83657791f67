-- ===== src/Binary/Check/Arrival.antt =====
-- What takes the place of the program's file.
use alkasir.Base.{
  ◌≡◌, refl, sym, ap, ◌∙◌, ◌⊎◌, inl, inr, true, Option, some, [], ◌∷◌, Str, Bool-cases,
  Option-cases,
}
use alkasir.Shared.Version.{Versions, Upgrade, UpgradeRequest}
use alkasir.Central.Suggestions.Sending
use alkasir.Central.Suggestions.Sending.{response}
use alkasir.Central.Suggestions.Sending.Versions.{Checked, found, not_found, check_binary_upgrade}
use alkasir.Central.Suggestions.Sending.Versions
use alkasir.Binary.Keys
use alkasir.Binary.Keys.{Crypto, Result, KeyError, decode_public_key, decode_signature}
use alkasir.Binary.Options.{
  Options, Apply, IsApply, new_updater_options, new_updater_options-IsMade, decode_sum-decoded,
  verify_signature-verified,
}
use alkasir.Binary.Check.{World, exchange, take_upgrade, upgrade_binary_check}

-- The new file of an upgrade is signed with the key, and has the checksum.
pub record IsSigned (c : Crypto) (public_key : Str) (res : Upgrade) (new : Str) : Type 0 where
  pub key : Str
  pub sig : Str
  pub is_key : decode_public_key c public_key ≡ Keys.ok key
  pub is_sig : decode_signature c res.ed25519_signature ≡ Keys.ok sig
  pub is_sum : c.base64_decode res.sha256_sum ≡ some (c.sha256 new)
  pub is_verified : c.verify key (c.sha256 new) sig ≡ true

Result-cases {ℓ} :
    {A : Type ℓ} (r : Result A)
    → ((e : KeyError) × (r ≡ Keys.error e)) ⊎ ((a : A) × (r ≡ Keys.ok a))
Result-cases (Keys.error e) = inl (e, refl)
Result-cases (Keys.ok a) = inr (a, refl)

exchange-IsSigned :
    (c : Crypto) (patch : Str → Str → Option Str) (apply : Apply) (public_key : Str) (res : Upgrade)
    (o : Options) (diff file : Str)
    → IsApply c patch apply
    → new_updater_options c res public_key ≡ Keys.ok o
    → (exchange apply o diff file ≡ file) ⊎ IsSigned c public_key res (exchange apply o diff file)
unfolding exchange
exchange-IsSigned c patch apply public_key res o diff file law made =
    elim (Option-cases (apply o diff file)) [
      | inl e ↦ inl (rw (e, exchange))
      | inr (new, e) ↦
          let m = new_updater_options-IsMade c res public_key o made in
          let (_, sum, fine) = law.applied o diff file new e in
          rw (e, exchange)
            (inr (record {
              key = o.public_key;
              sig = o.signature;
              is_key = m.key;
              is_sig = m.sig;
              is_sum = decode_sum-decoded c res.sha256_sum o.checksum m.sum ∙ ap some (sym sum);
              is_verified = verify_signature-verified c o (c.sha256 new) fine;
            }))
    ]

take_upgrade-IsSigned :
    (c : Crypto) (patch : Str → Str → Option Str) (apply : Apply) (public_key : Str) (w : World)
    (req : UpgradeRequest) (res : Upgrade) (file : Str)
    → IsApply c patch apply
    → ((take_upgrade c apply public_key w req res file).1 ≡ file)
      ⊎ IsSigned c public_key res (take_upgrade c apply public_key w req res file).1
unfolding take_upgrade
take_upgrade-IsSigned c patch apply public_key w req res file law =
    elim (Bool-cases w.has_transport) [
      | inr e ↦ rw (e, take_upgrade) (inl refl)
      | inl e ↦
          rw (e, take_upgrade)
            (elim (Result-cases (new_updater_options c res public_key)) [
              | inl (bad, f) ↦ rw (f, take_upgrade) (inl refl)
              | inr (o, f) ↦
                  rw (f, take_upgrade)
                    (elim (Bool-cases w.has_base) [
                      | inr g ↦ rw (g, take_upgrade) (inl refl)
                      | inl g ↦
                          rw (g, take_upgrade)
                            (elim (Option-cases
                              (w.download (req.artifact ∷ req.from_version ∷ res.version ∷ []))) [
                                | inl h ↦ rw (h, take_upgrade) (inl refl)
                                | inr (diff, h) ↦
                                    rw (h, take_upgrade)
                                      (exchange-IsSigned c patch apply public_key res o diff file
                                        law f)
                              ])
                    ])
            ])
    ]

Checked-cases :
    (r : Checked)
    → ((res : Upgrade) × (r ≡ found res))
      ⊎ ((r ≡ not_found) ⊎ ((e : Sending.Failure) × (r ≡ Versions.error e)))
Checked-cases (found res) = inl (res, refl)
Checked-cases not_found = inr (inl refl)
Checked-cases (Versions.error e) = inr (inr (e, refl))

-- Whatever the network gives, where the exchange of the file checks what it is told to: the program's file
-- stays as it is, or the central server has offered an upgrade, the check of its version has passed, and the
-- new file has the checksum of the offer, which is signed for the key that is built in.
pub upgrade_binary_check-IsSigned :
    {V : Type 0} (vs : Versions V) (c : Crypto) (patch : Str → Str → Option Str) (apply : Apply)
    (public_key : Str) (w : World) (req : UpgradeRequest) (file : Str)
    → IsApply c patch apply
    → ((upgrade_binary_check vs c apply public_key w req file).1 ≡ file)
      ⊎ ((res : Upgrade) × (check_binary_upgrade vs req w.answer ≡ found res)
          × IsSigned c public_key res (upgrade_binary_check vs c apply public_key w req file).1)
unfolding upgrade_binary_check
upgrade_binary_check-IsSigned vs c patch apply public_key w req file law =
    elim (Bool-cases w.has_client) [
      | inr e ↦ rw (e, upgrade_binary_check) (inl refl)
      | inl e ↦
          rw (e, upgrade_binary_check)
            (elim (Checked-cases (check_binary_upgrade vs req w.answer)) [
              | inr (inl f) ↦ rw (f, upgrade_binary_check) (inl refl)
              | inr (inr (bad, f)) ↦ rw (f, upgrade_binary_check) (inl refl)
              | inl (res, f) ↦
                  rw (f, upgrade_binary_check)
                    (elim (take_upgrade-IsSigned c patch apply public_key w req res file law) [
                      | inl same ↦ inl same
                      | inr signed ↦ inr (res, refl, signed)
                    ])
            ])
    ]
