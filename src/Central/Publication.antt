-- ===== src/Central/Publication.antt =====
-- A suggestion on its way through the central server: GetSessionSamples of pkg/central/db/postgres.go, which
-- hands what the API and the measuring goroutines stored to the analysis. How the database gives back a row is
-- an argument.
pub mod Arrives
pub mod Late
mod Tests
use alkasir.Base.{◌≡◌, true, false, List, [], ◌∷◌, Str, str_eq, if◌then◌else◌}
use alkasir.Central.Api.{DbSample}
use alkasir.Central.Analysis.Session.{Sample}

-- The rows of a token, in the order of the table.
unfoldable pub get_session_samples : (DbSample → Sample) → Str → List DbSample → List Sample
get_session_samples read token [] = []
get_session_samples read token (x ∷ xs) =
    let rest = get_session_samples read token xs in
    if str_eq x.token token then read x ∷ rest else rest

-- What was inserted is given back.
pub record IsRead (read : DbSample → Sample) : Type 0 where
  pub token : (x : DbSample) → (read x).token ≡ x.token
  pub host : (x : DbSample) → (read x).host ≡ x.host
  pub type : (x : DbSample) → (read x).type ≡ x.type_name
  pub origin : (x : DbSample) → (read x).origin ≡ x.origin
