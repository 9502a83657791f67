-- ===== src/Binary/Check/Delivery.antt =====
-- From the patch that is made of two files to the client that takes it.
use alkasir.Base.{
  ℕ, ◌≡◌, ◌≢◌, refl, ap, ◌∙◌, true, Option, some, List, [], ◌∷◌, ◌++◌, Str, codes, arith, length,
  length-append,
}
use alkasir.Base.Dict.{Dict, lookup, insert, lookup-insert_self, lookup-insert_ne}
use alkasir.Shared.Version.{Versions, Upgrade, UpgradeRequest}
use alkasir.Central.Suggestions.Sending.{response}
use alkasir.Central.Suggestions.Sending.Versions.{found, compare_versions, check_binary_upgrade}
use alkasir.Binary.Keys
use alkasir.Binary.Keys.{
  Crypto, IsCrypto, KeyPair, IsPair, ◌>>=◌, encode_keys, decode_private_key, decode_public_key,
  decode_signature, decode_block-encode, decode_signature-encode, private_type, public_type,
}
use alkasir.Binary.Options.{
  Options, Apply, IsApply, decode_sum, new_updater_options, verify_signature,
  verify_signature-signed,
}
use alkasir.Binary.Patch.{
  CreatePatchJob, CreatePatchResult, Tools, created, diff_path, result_of, write_patch,
  create_patch,
}
use alkasir.Binary.Check.{World, success, exchange, take_upgrade, upgrade_binary_check}

name-ne : (s : Str) → s ++ codes ".json" ≢ s
name-ne s e = absurd (omega (arith, ap (λ l. length l) e, length-append {0} s (codes ".json")))

-- A patch of two files that can be read is created, and its difference is kept under its path.
pub create_patch-created :
    (c : Crypto) (t : Tools) (k : KeyPair) (job : CreatePatchJob) (files : Dict Str)
    (old new diff : Str)
    → IsCrypto c
    → IsPair c k
    → job.private_key ≡ (encode_keys c k).0
    → lookup job.new_binary files ≡ some new
    → lookup job.old_binary files ≡ some old
    → t.diff old new ≡ some diff
    → ((path : Str) → t.can_make_dir path ≡ true)
    → ((path : Str) → t.can_write path ≡ true)
    → (files' : Dict Str) × (create_patch c t job files
        ≡ (created (result_of c t job k.private new), files'))
      × (lookup (diff_path t job.artifact job.old_version job.new_version) files' ≡ some diff)
unfolding create_patch write_patch encode_keys decode_private_key
create_patch-created c t k job files old new diff w p key hn ho hd dirs writes =
    let path = diff_path t job.artifact job.old_version job.new_version in
    let r = result_of c t job k.private new in
    let name = path ++ codes ".json" in
    let decoded : decode_private_key c job.private_key ≡ Keys.ok k.private =
      ap (decode_private_key c) key
      ∙ decode_block-encode c w private_type k.private 64 p.private_size in
    (
      insert name (t.marshal r) (insert path diff files),
      rw (hn, create_patch)
          (rw (decoded, create_patch)
            (rw (ho, create_patch)
              (rw (hd, create_patch)
                (rw (dirs (t.dir path), write_patch)
                  (rw (writes path, write_patch) (rw (writes name, write_patch) refl)))))),
      lookup-insert_ne name path (t.marshal r) (insert path diff files) (name-ne path)
          ∙ lookup-insert_self path diff files,
    )

-- What a patch says of itself, under any version.
abbrev pub offer_as : Str → ℕ → CreatePatchResult → Upgrade
offer_as version time r = record {
  artifact = r.artifact;
  version = version;
  created_at = time;
  sha256_sum = r.sha256_sum;
  ed25519_signature = r.ed25519_signature;
}

options_of :
    (c : Crypto) (t : Tools) (k : KeyPair) (job : CreatePatchJob) (new version : Str) (time : ℕ)
    → IsCrypto c
    → IsPair c k
    → new_updater_options c
        (offer_as version time (result_of c t job k.private new))
        (encode_keys c k).1
      ≡ Keys.ok (record {
        target_version = version;
        checksum = c.sha256 new;
        signature = c.sign k.private (c.sha256 new);
        public_key = k.public;
      })
unfolding new_updater_options decode_sum encode_keys decode_public_key
options_of c t k job new version time w p =
    rw (w.base64 (c.sha256 new), decode_sum)
      (rw (decode_signature-encode c k.private (c.sha256 new) w, ◌>>=◌)
        (rw (decode_block-encode c w public_type k.public 32 p.public_size, ◌>>=◌) refl))

-- The metadata of a patch may name any version that is not older than the client's own: where the server
-- offers it, and the difference is found under that name, the client takes the file that the patch was made
-- of, whatever its version is.
pub upgrade_binary_check-takes :
    {V : Type 0} (vs : Versions V) (c : Crypto) (patch : Str → Str → Option Str) (apply : Apply)
    (t : Tools) (k : KeyPair) (job : CreatePatchJob) (w : World) (req : UpgradeRequest)
    (old new diff version : Str) (time : ℕ)
    → IsCrypto c
    → IsPair c k
    → IsApply c patch apply
    → patch old diff ≡ some new
    → w.has_client ≡ true
    → w.has_transport ≡ true
    → w.has_base ≡ true
    → w.answer ≡ response 200 (some (offer_as version time (result_of c t job k.private new)))
    → compare_versions vs req (offer_as version time (result_of c t job k.private new))
      ≡ found (offer_as version time (result_of c t job k.private new))
    → w.download (req.artifact ∷ req.from_version ∷ version ∷ []) ≡ some diff
    → upgrade_binary_check vs c apply (encode_keys c k).1 w req old ≡ (success, new)
unfolding upgrade_binary_check take_upgrade exchange check_binary_upgrade
upgrade_binary_check-takes vs c patch apply t k job w req old new diff version time wc wp wa patched
      client transport base answer newer got =
    let o : Options = record {
      target_version = version;
      checksum = c.sha256 new;
      signature = c.sign k.private (c.sha256 new);
      public_key = k.public;
    } in
    let verified : verify_signature c o (c.sha256 new) ≡ true =
      verify_signature-signed c k o (c.sha256 new) wc wp refl refl in
    let applied = wa.applies o diff old new patched refl verified in
    rw (client, upgrade_binary_check)
      (rw (answer, check_binary_upgrade)
        (rw (newer, upgrade_binary_check)
          (rw (transport, take_upgrade)
            (rw (options_of c t k job new version time wc wp, take_upgrade)
              (rw (base, take_upgrade) (rw (got, take_upgrade) (rw (applied, exchange) refl)))))))

-- A patch between two files that can be read and have a difference, made with a pair of keys on a disk that can
-- be written, reaches the client: it is created; and where the server offers its metadata to a client of the old version, the check of the versions passes,
-- and the client downloads what is kept under the path of the patch, the old file is replaced by the new one.
pub create_patch-arrives :
    {V : Type 0} (vs : Versions V) (c : Crypto) (patch : Str → Str → Option Str) (apply : Apply)
    (t : Tools) (k : KeyPair) (job : CreatePatchJob) (files : Dict Str) (w : World)
    (old new diff : Str) (time : ℕ)
    → IsCrypto c
    → IsPair c k
    → IsApply c patch apply
    → ((path : Str) → t.can_make_dir path ≡ true)
    → ((path : Str) → t.can_write path ≡ true)
    → job.private_key ≡ (encode_keys c k).0
    → lookup job.new_binary files ≡ some new
    → lookup job.old_binary files ≡ some old
    → t.diff old new ≡ some diff
    → patch old diff ≡ some new
    → w.has_client ≡ true
    → w.has_transport ≡ true
    → w.has_base ≡ true
    → w.answer
      ≡ response 200 (some (offer_as job.new_version time (result_of c t job k.private new)))
    → compare_versions vs
        (record { artifact = job.artifact; from_version = job.old_version })
        (offer_as job.new_version time (result_of c t job k.private new))
      ≡ found (offer_as job.new_version time (result_of c t job k.private new))
    → ((names : List Str)
        → w.download names ≡ lookup (t.join (codes "diffs" ∷ names)) (create_patch c t job files).1)
    → ((create_patch c t job files).0 ≡ created (result_of c t job k.private new))
      × (upgrade_binary_check vs c apply
            (encode_keys c k).1
            w
            (record { artifact = job.artifact; from_version = job.old_version })
            old
          ≡ (success, new))
create_patch-arrives vs c patch apply t k job files w old new diff time wc wp wa dirs writes key hn
      ho hd patched client transport base answer newer serves =
    let (files', made, kept) =
      create_patch-created c t k job files old new diff wc wp key hn ho hd dirs writes in
    let path = diff_path t job.artifact job.old_version job.new_version in
    (
      ap (λ x. x.0) made,
      upgrade_binary_check-takes vs c patch apply t k job w
          (record { artifact = job.artifact; from_version = job.old_version }) old new diff
          job.new_version time wc wp wa patched client transport base answer newer
          (serves (job.artifact ∷ job.old_version ∷ job.new_version ∷ [])
            ∙ ap (λ x. lookup path x.1) made
            ∙ kept),
    )
