-- ===== src/Service/Server/Tracking/Tests.antt =====
-- One address with a connection.
use alkasir.Base.{ℕ, ◌≡◌, refl, List, [], ◌∷◌, codes, str_eq}
use alkasir.Base.Dict.{Dict, lookup, insert}
use alkasir.Service.Server.Tracking.{
  track_open_conn, track_close_conn, opened, Track, open_conn, close_conn, track,
}
use alkasir.Service.Server.Tracking.Laws.{track_all}

abbrev events : List Track
events = open_conn (codes "a") ∷ open_conn (codes "b") ∷ close_conn (codes "a") ∷ []

abbrev one : Dict ℕ
one = (codes "a", 1) ∷ []

still_open : opened (track_all events one) ≡ codes "a" ∷ codes "b" ∷ []
unfolding opened track track_open_conn track_close_conn lookup insert str_eq
still_open = refl
