-- ===== src/Binary/Tests.antt =====
-- Keys of zeros, text that is its own Base64 and its own checksum, and a difference that is the new file.
use mathlib.Core.List.{Perm}
use mathlib.Core.List.Perm
use alkasir.Base.{
  ℕ, zero, suc, ◌≡◌, ◌⊎◌, refl, Bool, true, false, ◌&&◌, Option, none, some, List, [], ◌∷◌, ◌++◌,
  map, Str, str_eq, str_eq_iff, str_eq_refl, codes, arith, ltb, length, take, drop, All, Bool-cases,
  inl, inr, if◌then◌else◌,
}
use alkasir.Base.Dict.{Dict, lookup, insert}
use alkasir.Shared.Version.{
  Versions, Upgrade, UpgradeRequest, less, equal, greater, IsAntisymmetric, IsTransitive,
}
use alkasir.Central.Suggestions.Sending.{response}
use alkasir.Central.Suggestions.Sending.Versions.{found, compare_versions, check_binary_upgrade}
use alkasir.Binary.Keys
use alkasir.Binary.Keys.{Crypto, IsCrypto, KeyPair, IsPair, encode_keys}
use alkasir.Binary.Options.{Apply, IsApply, verify_signature}
use alkasir.Binary.Patch.{
  CreatePatchJob, CreatePatchResult, Tools, created, result_of, write_patch, create_patch,
}
use alkasir.Binary.Patch.Jobs.{
  Artifact, NotNewer, IsDescending, job_of, all_sent, create_jobs, IsOrder, IsSorted,
}
use alkasir.Binary.Patch.Newest.{create_jobs-newest}
use alkasir.Binary.Import.{import_upgrades}
use alkasir.Binary.Import.Unique.{IsUnique, import_upgrades-IsUnique}
use alkasir.Binary.Check.{World, success, upgrade_binary_check}
use alkasir.Binary.Check.Arrival.{IsSigned, upgrade_binary_check-IsSigned}
use alkasir.Binary.Check.Delivery.{offer_as, upgrade_binary_check-takes, create_patch-arrives}

abbrev zeros : ℕ → Str
zeros zero = []
zeros (suc n) = 0 ∷ zeros n

abbrev decode : Str → Option (Str × Str)
decode [] = none
decode (n ∷ s) = some (take n s, drop n s)

abbrev plain : Crypto
plain = record {
  pem_encode = λ type bytes. length type ∷ type ++ bytes;
  pem_decode = decode;
  base64_encode = λ s. s;
  base64_decode = λ s. some s;
  sha256 = λ s. s;
  sign = λ key message. zeros 64;
  verify = λ key message sig. str_eq sig (zeros 64);
}

take-length : (a b : Str) → take (length a) (a ++ b) ≡ a
take-length [] b = refl
take-length (x ∷ a) b = rw (take-length a b) refl

drop-length : (a b : Str) → drop (length a) (a ++ b) ≡ b
drop-length [] b = refl
drop-length (x ∷ a) b = drop-length a b

plain-IsCrypto : IsCrypto plain
plain-IsCrypto = record {
  pem = λ type bytes. rw (take-length type bytes, drop-length type bytes) refl;
  base64 = λ bytes. refl;
  signed = λ key message. refl;
}

abbrev pair : KeyPair
pair = record { public = zeros 32; private = zeros 64 }

pair-IsPair : IsPair plain pair
pair-IsPair = record {
  public_size = refl;
  private_size = refl;
  signs = λ message. str_eq_refl (zeros 64);
}

abbrev patch : Str → Str → Option Str
patch old diff = some diff

abbrev apply : Apply
apply o diff old =
    if str_eq diff o.checksum && verify_signature plain o diff then some diff else none

apply-IsApply : IsApply plain patch apply
apply-IsApply = record {
  applies = λ o diff old new e sum fine. ground (arith, str_eq_iff diff o.checksum);
  applied = λ o diff old new e. ground (arith, str_eq_iff diff o.checksum);
}

abbrev tools : Tools
tools = record {
  join = λ names. elim names [ [] ↦ [] | n ∷ _ ↦ n ];
  dir = λ path. [];
  diff = λ old new. some new;
  can_make_dir = λ _. true;
  can_write = λ _. true;
  marshal = λ _. [];
}

abbrev job : CreatePatchJob
job = record {
  artifact = codes "a";
  old_binary = codes "o";
  new_binary = codes "n";
  old_version = codes "1";
  new_version = codes "2";
  private_key = (encode_keys plain pair).0;
  public_key = (encode_keys plain pair).1;
}

-- The old and the new file of the program.
abbrev files : Dict Str
files = (codes "o", codes "old") ∷ (codes "n", codes "new") ∷ []

-- Versions of one digit.
abbrev order : Versions ℕ
order = record {
  parse = λ s. elim s [ [] ↦ none | n ∷ _ ↦ some n ];
  compare = λ v w. if ltb w v then greater else if ltb v w then less else equal;
}

abbrev offered : Upgrade
offered = offer_as (codes "2") 0 (result_of plain tools job pair.private (codes "new"))

abbrev world : World
world = record {
  has_client = true;
  answer = response 200 (some offered);
  has_transport = true;
  has_base = true;
  download =
      λ names. lookup (tools.join (codes "diffs" ∷ names)) (create_patch plain tools job files).1;
}

abbrev request : UpgradeRequest
request = record { artifact = codes "a"; from_version = codes "1" }

-- The patch is kept.
kept : lookup (codes "diffs") (create_patch plain tools job files).1 ≡ some (codes "new")
unfolding create_patch write_patch lookup insert str_eq encode_keys Keys.decode_private_key
kept = refl

create_patch-arrives_example :
    ((create_patch plain tools job files).0
      ≡ created (result_of plain tools job pair.private (codes "new")))
    × (upgrade_binary_check order plain apply
          (encode_keys plain pair).1
          world
          (record { artifact = job.artifact; from_version = job.old_version })
          (codes "old")
        ≡ (success, codes "new"))
create_patch-arrives_example =
    create_patch-arrives order plain patch apply tools pair job files world (codes "old")
      (codes "new") (codes "new") 0 plain-IsCrypto pair-IsPair apply-IsApply (λ path. refl)
      (λ path. refl) refl (unfold lookup str_eq in refl) (unfold lookup str_eq in refl) refl refl
      refl refl refl refl (unfold compare_versions in refl) (λ names. refl)

-- The new file is offered as version 7.
abbrev renamed : World
renamed = record world {
  answer =
      response 200
        (some (offer_as (codes "7") 0 (result_of plain tools job pair.private (codes "new"))));
  download = λ names. some (codes "new");
}

upgrade_binary_check-takes_example :
    upgrade_binary_check order plain apply (encode_keys plain pair).1 renamed request (codes "old")
    ≡ (success, codes "new")
upgrade_binary_check-takes_example =
    upgrade_binary_check-takes order plain patch apply tools pair job renamed request (codes "old")
      (codes "new") (codes "new") (codes "7") 0 plain-IsCrypto pair-IsPair apply-IsApply refl refl
      refl refl refl (unfold compare_versions in refl) refl

upgrade_binary_check-IsSigned_example :
    ((upgrade_binary_check order plain apply
        (encode_keys plain pair).1
        world
        request
        (codes "old")).1
      ≡ codes "old")
    ⊎ ((res : Upgrade) × (check_binary_upgrade order request world.answer ≡ found res)
        × IsSigned plain
            (encode_keys plain pair).1
            res
            (upgrade_binary_check order plain apply
              (encode_keys plain pair).1
              world
              request
              (codes "old")).1)
upgrade_binary_check-IsSigned_example =
    upgrade_binary_check-IsSigned order plain patch apply (encode_keys plain pair).1 world request
      (codes "old") apply-IsApply

abbrev artifact : ℕ → Artifact ℕ
artifact n = record { artifact_id = codes "a"; classifier = codes "b"; version = n ∷ []; v = n }

-- Sorting by insertion.
module _ {A : Type 0} (is_below : A → A → Bool) where
  abbrev place : A → List A → List A
  place a [] = a ∷ []
  place a (b ∷ rest) = let below = place a rest in if is_below b a then b ∷ below else a ∷ b ∷ rest

  abbrev sort : List A → List A
  sort [] = []
  sort (a ∷ rest) = place a (sort rest)

  place-perm : (a : A) (xs : List A) → Perm (place a xs) (a ∷ xs)
  place-perm a [] = Perm.refl _
  place-perm a (b ∷ rest) = elim (Bool-cases (is_below b a)) [
    | inl h ↦ rw h (Perm.trans (Perm.cons b (place-perm a rest)) (Perm.swap a b rest))
    | inr h ↦ rw h (Perm.refl _)
  ]

  sort-perm : (xs : List A) → Perm (sort xs) xs
  sort-perm [] = Perm.refl _
  sort-perm (a ∷ rest) = Perm.trans (place-perm a (sort rest)) (Perm.cons a (sort-perm rest))

  below-All :
      (a b : A) (xs : List A)
      → IsOrder is_below
      → is_below b a ≡ false
      → All (λ x. is_below x b ≡ false) xs
      → All (λ x. is_below x a ≡ false) xs
  below-All a b [] o h all = tt
  below-All a b (x ∷ xs) o h (hx, all) = (o.1 x b a hx h, below-All a b xs o h all)

  place-All :
      (b a : A) (xs : List A)
      → is_below a b ≡ false
      → All (λ x. is_below x b ≡ false) xs
      → All (λ x. is_below x b ≡ false) (place a xs)
  place-All b a [] h all = (h, tt)
  place-All b a (x ∷ rest) h (hx, all) = elim (Bool-cases (is_below x a)) [
    | inl e ↦ rw e (hx, place-All b a rest h all)
    | inr e ↦ rw e (h, (hx, all))
  ]

  place-IsSorted :
      (a : A) (xs : List A)
      → IsOrder is_below
      → IsSorted is_below xs
      → IsSorted is_below (place a xs)
  place-IsSorted a [] o s = (tt, tt)
  place-IsSorted a (b ∷ rest) o (h, s) = elim (Bool-cases (is_below b a)) [
    | inl e ↦ rw e (place-All b a rest (o.0 b a e) h, place-IsSorted a rest o s)
    | inr e ↦ rw e ((e, below-All a b rest o e h), (h, s))
  ]

  sort-IsSorted : (xs : List A) → IsOrder is_below → IsSorted is_below (sort xs)
  sort-IsSorted [] o = tt
  sort-IsSorted (a ∷ rest) o = place-IsSorted a (sort rest) o (sort-IsSorted rest o)

order-IsAntisymmetric : IsAntisymmetric order
order-IsAntisymmetric v w = ground arith

order-IsTransitive : IsTransitive order
order-IsTransitive u v w h k = ground (arith, h, k)

abbrev released : List (Artifact ℕ)
released = artifact 3 ∷ artifact 9 ∷ artifact 5 ∷ []

create_jobs-newest_example :
    (latest : Artifact ℕ) × (rest : List (Artifact ℕ)) × Perm (latest ∷ rest) released
    × (create_jobs (λ a. some a.version) (codes "k") (codes "p") order sort released
        ≡ all_sent (
            map
              (λ a. job_of (codes "k") (codes "p") latest latest.version a a.version)
              (take 50 rest)))
    × All (λ a. NotNewer order a latest) rest
    × All (λ a. All (λ b. NotNewer order b a) (drop 50 rest)) (take 50 rest)
    × IsDescending order (take 50 rest)
create_jobs-newest_example =
    create_jobs-newest (λ a. some a.version) (codes "k") (codes "p") (λ a. a.version) order sort
      released order-IsAntisymmetric order-IsTransitive
      (λ is_below xs o. (sort-IsSorted is_below xs o, sort-perm is_below xs)) (λ a. refl)
      (omega arith)

abbrev result : CreatePatchResult
result = result_of plain tools job pair.private (codes "new")

import_upgrades-IsUnique_example :
    IsUnique (import_upgrades (λ _. true) 5 (result ∷ result ∷ []) []).1
import_upgrades-IsUnique_example =
    import_upgrades-IsUnique (λ _. true) 5 (result ∷ result ∷ []) [] (cc, (cc, tt)) tt
