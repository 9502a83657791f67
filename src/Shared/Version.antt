-- ===== src/Shared/Version.antt =====
-- What pkg/central and pkg/client use of versions, github.com/hashicorp/go-version, and the types of
-- pkg/shared/types.go for upgrades.
use alkasir.Base.{ℕ, ◌≡◌, Bool, true, false, Option, Str}

pub data Order : Type 0 where
  less equal greater : Order

-- The order the other way round.
abbrev pub flip : Order → Order
flip less = greater
flip equal = equal
flip greater = less

abbrev pub is_less : Order → Bool
is_less less = true
is_less _ = false

abbrev pub is_equal : Order → Bool
is_equal equal = true
is_equal _ = false

abbrev pub is_greater : Order → Bool
is_greater greater = true
is_greater _ = false

-- `version.NewVersion` and `Compare`.
pub record Versions (V : Type 0) : Type 0 where
  pub parse : Str → Option V
  pub compare : V → V → Order

-- Compare the other way round gives the order the other way round.
abbrev pub IsAntisymmetric : {V : Type 0} → Versions V → Type 0
IsAntisymmetric {V} vs = (v w : V) → vs.compare v w ≡ flip (vs.compare w v)

-- Not being greater passes on.
abbrev pub IsTransitive : {V : Type 0} → Versions V → Type 0
IsTransitive {V} vs =
    (u v w : V)
    → is_greater (vs.compare u v) ≡ false
    → is_greater (vs.compare v w) ≡ false
    → is_greater (vs.compare u w) ≡ false

pub record UpgradeRequest : Type 0 where
  pub artifact : Str
  pub from_version : Str

pub record Upgrade : Type 0 where
  pub artifact : Str
  pub version : Str
  pub created_at : ℕ
  pub sha256_sum : Str
  pub ed25519_signature : Str
