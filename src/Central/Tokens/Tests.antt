-- ===== src/Central/Tokens/Tests.antt =====
-- Two sessions, one of them too old at the time of the tests.
use alkasir.Base.{ℕ, ◌*◌, ◌≡◌, refl, [], ◌∷◌, Str, codes, str_eq}
use alkasir.Base.Dict.{lookup, erase}
use alkasir.Central.Tokens.{
  TokenData, SessionTokenStore, get, is_expired, expired_ids, delete_all, expire_sessions,
}
use alkasir.Central.Tokens.Laws.{IsFiled, still, get-expire_sessions}

abbrev token : Str → ℕ → TokenData
token id t = record { id = id; created_at = t; url = codes "http://example.com" }

abbrev now : ℕ
now = 3600 * 1000000000

abbrev store : SessionTokenStore
store = record {
  sessions = (codes "old", token (codes "old") 5) ∷ (codes "young", token (codes "young") now) ∷ [];
  sessions_active = 2;
  sessions_total = 7;
}

expired_old : expire_sessions now store ≡ record {
  sessions = (codes "young", token (codes "young") now) ∷ [];
  sessions_active = 1;
  sessions_total = 1;
}
unfolding expire_sessions expired_ids is_expired delete_all erase str_eq
expired_old = refl

store-IsFiled : IsFiled store.sessions
unfolding lookup str_eq
store-IsFiled = (refl, refl, (refl, refl, tt))

get-expire_sessions_example :
    get (codes "old") (expire_sessions now store) ≡ still now (get (codes "old") store)
get-expire_sessions_example = get-expire_sessions now store (codes "old") store-IsFiled
