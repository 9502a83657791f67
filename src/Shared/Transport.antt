-- ===== src/Shared/Transport.antt =====
-- pkg/shared/transport.go.
use alkasir.Base.{Bool, Str}

pub record Transport : Type 0 where
  pub name : Str
  pub bundled : Bool
  pub command : Str
  pub tor_pt : Bool
