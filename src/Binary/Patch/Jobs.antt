-- ===== src/Binary/Patch/Jobs.antt =====
-- createJobs of pkg/upgradebin/makepatch/makepatch.go, and the artifacts of pkg/nexus that it sorts. What the
-- artifact server and the file system give is an argument, and so is `sort.Sort`; an error of the server ends
-- the program.
use mathlib.Core.List.{Perm}
use alkasir.Base.{
  ℕ, ◌+◌, ◌≡◌, Bool, true, false, Option, none, some, List, [], ◌∷◌, Str, ◌++◌, codes, ltb, length,
  take, drop, All, if◌then◌else◌,
}
use alkasir.Shared.Version.{Versions, is_less, is_greater}
use alkasir.Binary.Patch.{CreatePatchJob}

-- Of a nexus artifact, and its parsed version.
pub record Artifact (V : Type 0) : Type 0 where
  pub artifact_id : Str
  pub classifier : Str
  pub version : Str
  pub v : V

module _ {V : Type 0} where
  -- Latest of pkg/nexus/artifacts.go, from the artifact that was the latest before.
  unfoldable pub latest_from :
      Versions V → Option (Artifact V) → List (Artifact V) → Option (Artifact V)
  latest_from vs latest [] = latest
  latest_from vs none (a ∷ rest) = latest_from vs (some a) rest
  latest_from vs (some l) (a ∷ rest) =
      latest_from vs (if is_greater (vs.compare a.v l.v) then some a else some l) rest

  -- Not after the other one in the order of versions.
  abbrev pub NotNewer : Versions V → Artifact V → Artifact V → Type 0
  NotNewer vs a b = is_greater (vs.compare a.v b.v) ≡ false

  abbrev pub IsDescending : Versions V → List (Artifact V) → Type 0
  IsDescending vs [] = Unit
  IsDescending vs (a ∷ rest) = All (λ b. NotNewer vs b a) rest × IsDescending vs rest

  abbrev pub job_of : Str → Str → Artifact V → Str → Artifact V → Str → CreatePatchJob
  job_of private public latest new a old = record {
    artifact = latest.artifact_id ++ codes "-" ++ latest.classifier;
    old_binary = old;
    new_binary = new;
    old_version = a.version;
    new_version = latest.version;
    private_key = private;
    public_key = public;
  }

pub data Jobs : Type 0 where
  too_few : Jobs
  -- GetBinary failed, after these were sent.
  no_binary : List CreatePatchJob → Jobs
  all_sent : List CreatePatchJob → Jobs

abbrev sent_before : CreatePatchJob → Jobs → Jobs
sent_before j too_few = too_few
sent_before j (no_binary js) = no_binary (j ∷ js)
sent_before j (all_sent js) = all_sent (j ∷ js)

-- PatchHistoryAmountMax
abbrev pub patch_history_amount_max : ℕ
patch_history_amount_max = 50

-- `sort.Reverse`, on the test that is sorted by.
abbrev pub reverse {ℓ} : {A : Type ℓ} → (A → A → Bool) → A → A → Bool
reverse is_below a b = is_below b a

-- What `sort.Sort` asks of the test.
abbrev pub IsOrder {ℓ} : {A : Type ℓ} → (A → A → Bool) → Type ℓ
IsOrder {A = A} is_below =
    ((a b : A) → is_below a b ≡ true → is_below b a ≡ false)
    × ((a b c : A) → is_below a b ≡ false → is_below b c ≡ false → is_below a c ≡ false)

abbrev pub IsSorted {ℓ} : {A : Type ℓ} → (A → A → Bool) → List A → Type ℓ
IsSorted is_below [] = Unit
IsSorted is_below (a ∷ rest) = All (λ b. is_below b a ≡ false) rest × IsSorted is_below rest

abbrev pub Sort : Type 0 → Type 0
Sort A = (A → A → Bool) → List A → List A

-- What `sort.Sort` promises: for such a test, the same elements, and none less than one before it.
abbrev pub IsSort : {A : Type 0} → Sort A → Type 0
IsSort {A} sort =
    (is_below : A → A → Bool) (xs : List A)
    → IsOrder is_below
    → IsSorted is_below (sort is_below xs) × Perm (sort is_below xs) xs

module _ {V : Type 0} where
  -- Artifact.LessThan of pkg/nexus/artifact.go
  unfoldable pub less_than : Versions V → Artifact V → Artifact V → Bool
  less_than vs a b = is_less (vs.compare a.v b.v)

  -- Less of pkg/nexus/artifacts.go, on the elements at the two places.
  unfoldable pub artifact_less : Versions V → Artifact V → Artifact V → Bool
  unfolding less_than
  artifact_less vs a b = less_than vs a b

  -- The old versions that get a patch.
  unfoldable pub history : List (Artifact V) → List (Artifact V)
  history versions =
      if ltb (patch_history_amount_max + 1) (length versions)
      then drop 1 (take (patch_history_amount_max + 1) versions)
      else drop 1 versions

module _ {V : Type 0} (get_binary : Artifact V → Option Str) (private public : Str) where
  -- The loop over the old versions.
  unfoldable pub send_jobs : Artifact V → Str → List (Artifact V) → Jobs
  send_jobs latest new [] = all_sent []
  send_jobs latest new (a ∷ rest) = elim (get_binary a) [
    | none ↦ no_binary []
    | some old ↦ sent_before (job_of private public latest new a old) (send_jobs latest new rest)
  ]

  -- From the sorted versions on.
  unfoldable pub create_sorted : List (Artifact V) → Jobs
  unfolding send_jobs history
  create_sorted [] = too_few
  create_sorted (a ∷ []) = too_few
  create_sorted (latest ∷ b ∷ rest) = elim (get_binary latest) [
    | none ↦ no_binary []
    | some new ↦ send_jobs latest new (history (latest ∷ b ∷ rest))
  ]

  -- `versions` are those that GetVersions gives. They are sorted, and sorted again in reverse.
  unfoldable pub create_jobs : Versions V → Sort (Artifact V) → List (Artifact V) → Jobs
  unfolding create_sorted artifact_less
  create_jobs vs sort versions =
      create_sorted (sort (reverse (artifact_less vs)) (sort (artifact_less vs) versions))
