-- ===== src/Service/Server/Tracking.antt =====
-- pkg/service/server/server.go: the numbers of open connections that a transport keeps, by address.
-- A number is a 64-bit word. Locks and logging are left out.
mod Laws
mod Tests
use alkasir.Base.{
  ℕ, ◌+◌, ◌%◌, ◌^◌, Bool, true, false, Option, none, some, List, [], ◌∷◌, Str, ltb, if◌then◌else◌,
}
use alkasir.Base.Dict.{Dict, lookup, insert}

unfoldable pub track_open_conn : Str → Dict ℕ → Dict ℕ
track_open_conn addr addrs = elim (lookup addr addrs) [
  | some n ↦ insert addr ((n + 1) % 2 ^ 64) addrs
  | none ↦ insert addr 1 addrs
]

-- Subtracting one from a word is adding the largest.
unfoldable pub track_close_conn : Str → Dict ℕ → Dict ℕ
track_close_conn addr addrs = elim (lookup addr addrs) [
  | some n ↦ insert addr ((n + 18446744073709551615) % 2 ^ 64) addrs
  | none ↦ insert addr 0 addrs
]

-- The addresses that monitor reports as open.
unfoldable pub opened : Dict ℕ → List Str
opened [] = []
opened ((addr, n) ∷ addrs) = let rest = opened addrs in if ltb 0 n then addr ∷ rest else rest

pub data Track : Type 0 where
  open_conn close_conn : Str → Track

unfoldable pub track : Track → Dict ℕ → Dict ℕ
track (open_conn addr) addrs = track_open_conn addr addrs
track (close_conn addr) addrs = track_close_conn addr addrs
