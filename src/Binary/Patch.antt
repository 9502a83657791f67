-- ===== src/Binary/Patch.antt =====
-- pkg/upgradebin/makepatch/makepatch.go: createJobs and CreatePatch. The files are a map from paths to bytes;
-- which of them can be written, the paths, the difference of two files and JSON are parameters.
pub mod Jobs
pub mod Newest
use alkasir.Base.{
  ℕ, Bool, true, false, not, ◌&&◌, Option, none, some, List, [], ◌∷◌, ◌++◌, Str, codes,
  if◌then◌else◌,
}
use alkasir.Base.Dict.{Dict, lookup, insert}
use alkasir.Binary.Keys.{Crypto, KeyError, Result, ok, error, decode_private_key}

pub record CreatePatchJob : Type 0 where
  pub artifact : Str
  pub old_binary : Str
  pub new_binary : Str
  pub old_version : Str
  pub new_version : Str
  pub private_key : Str
  pub public_key : Str

-- The job it is made for is not among the fields that are used.
pub record CreatePatchResult : Type 0 where
  pub artifact : Str
  pub old_version : Str
  pub new_version : Str
  pub sha256_sum : Str
  pub ed25519_signature : Str
  pub diff_file : Str

abbrev pub empty_result : CreatePatchResult
empty_result = record {
  artifact = [];
  old_version = [];
  new_version = [];
  sha256_sum = [];
  ed25519_signature = [];
  diff_file = [];
}

pub record Tools : Type 0 where
  -- `filepath.Join` and `filepath.Dir`
  pub join : List Str → Str
  pub dir : Str → Str
  -- `binarydist.Diff`, from the old file to the new one
  pub diff : Str → Str → Option Str
  pub can_make_dir : Str → Bool
  pub can_write : Str → Bool
  pub marshal : CreatePatchResult → Str

pub data Creation : Type 0 where
  created : CreatePatchResult → Creation
  no_key : KeyError → Creation
  not_written : Creation

-- `diffsDir` and the three names below it.
abbrev pub diff_path : Tools → Str → Str → Str → Str
diff_path t artifact old new = t.join (codes "diffs" ∷ artifact ∷ old ∷ new ∷ [])

abbrev pub result_of : Crypto → Tools → CreatePatchJob → Str → Str → CreatePatchResult
result_of c t job key new = record {
  artifact = job.artifact;
  old_version = job.old_version;
  new_version = job.new_version;
  sha256_sum = c.base64_encode (c.sha256 new);
  ed25519_signature = c.base64_encode (c.sign key (c.sha256 new));
  diff_file = diff_path t job.artifact job.old_version job.new_version;
}

-- From the difference on: the file of it, and the one that describes it.
unfoldable pub write_patch : Tools → CreatePatchResult → Str → Dict Str → Creation × Dict Str
write_patch t r diff files =
    if not (t.can_make_dir (t.dir r.diff_file) && t.can_write r.diff_file)
    then (not_written, files)
    else let written = insert r.diff_file diff files in
      let name = r.diff_file ++ codes ".json" in
      if not (t.can_write name)
      then (not_written, written)
      else (created r, insert name (t.marshal r) written)

-- A file that cannot be read, or has no difference, gives the empty result and no error.
unfoldable pub create_patch : Crypto → Tools → CreatePatchJob → Dict Str → Creation × Dict Str
unfolding write_patch decode_private_key
create_patch c t job files = elim (lookup job.new_binary files) [
  | none ↦ (created empty_result, files)
  | some new ↦ elim (decode_private_key c job.private_key) [
    | error e ↦ (no_key e, files)
    | ok key ↦ elim (lookup job.old_binary files) [
      | none ↦ (created empty_result, files)
      | some old ↦ elim (t.diff old new) [
        | none ↦ (created empty_result, files)
        | some diff ↦ write_patch t (result_of c t job key new) diff files
      ]
    ]
  ]
]
