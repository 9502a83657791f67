-- ===== src/Central/Tokens.antt =====
-- pkg/central/db/sessionstoken.go: the store of suggestion sessions. A time is a number of
-- nanoseconds; that `a` is before `now` less the timeout is written `a + timeout < now`. The random
-- text of a new token comes from outside, and its absence is a panic.
use alkasir.Base.{
  ℕ, ◌+◌, ◌*◌, Bool, true, false, Option, none, some, List, [], ◌∷◌, ltb, Str, length,
  if◌then◌else◌,
}
use alkasir.Base.Dict.{Dict, lookup, insert, erase}
pub mod Laws
mod Tests

pub record TokenData : Type 0 where
  pub id : Str
  pub created_at : ℕ
  pub url : Str

-- The sessions, and the two numbers that are reported.
pub record SessionTokenStore : Type 0 where
  pub sessions : Dict TokenData
  pub sessions_active : ℕ
  pub sessions_total : ℕ

abbrev pub session_timeout : ℕ
session_timeout = 30 * 60 * 1000000000

unfoldable pub get : Str → SessionTokenStore → Option TokenData
get id s = lookup id s.sessions

unfoldable pub is_expired : ℕ → TokenData → Bool
is_expired now v = ltb (v.created_at + session_timeout) now

-- The first loop of expireSessions.
unfoldable pub expired_ids : ℕ → Dict TokenData → List Str
expired_ids now [] = []
expired_ids now ((_, v) ∷ m) =
    let rest = expired_ids now m in if is_expired now v then v.id ∷ rest else rest

unfoldable pub delete_all : List Str → Dict TokenData → Dict TokenData
delete_all [] m = m
delete_all (id ∷ ids) m = delete_all ids (erase id m)

unfoldable pub expire_sessions : ℕ → SessionTokenStore → SessionTokenStore
expire_sessions now s = elim (expired_ids now s.sessions) [
  | [] ↦ s
  | id ∷ ids ↦
      let left = delete_all (id ∷ ids) s.sessions in
      record { sessions = left; sessions_active = length left; sessions_total = length left }
]

unfoldable pub add_all : List TokenData → Dict TokenData → Dict TokenData
add_all [] m = m
add_all (v ∷ vs) m = add_all vs (insert v.id v m)

unfoldable pub reset : List TokenData → ℕ → SessionTokenStore → SessionTokenStore
reset sessions now s = expire_sessions now (record s { sessions = add_all sessions [] })

unfoldable pub new : Option Str → Str → ℕ → SessionTokenStore → Option (Str × SessionTokenStore)
new none url now s = none
new (some id) url now s = some (
  id,
  record {
    sessions = insert id (record { id = id; created_at = now; url = url }) s.sessions;
    sessions_active = s.sessions_active + 1;
    sessions_total = s.sessions_total + 1;
  },
)
