-- ===== src/Client/Auth.antt =====
-- pkg/client/http.go: the keys that open the client's pages once, and the check of every request. A time is a
-- number of nanoseconds; the random key is an argument.
pub mod Keys
mod Tests
use alkasir.Base.{
  ℕ, ◌+◌, ◌*◌, ltb, Bool, true, false, ◌||◌, Option, none, some, List, [], ◌∷◌, Str, str_eq,
  strip_prefix, codes, if◌then◌else◌,
}
use alkasir.Base.Dict.{Dict, lookup, insert, erase}

-- The entries of singleUseAuthKeyStore: when each key was made.
abbrev pub Store : Type 0
Store = Dict ℕ

abbrev pub ttl : ℕ
ttl = 5 * 60 * 1000000000

unfoldable pub authenticate : Str → ℕ → Store → Bool × Store
authenticate key now s = elim (lookup key s) [
  | none ↦ (false, s)
  | some v ↦ (ltb now (v + ttl), erase key s)
]

unfoldable pub new : Str → ℕ → Store → Store
new key now s = insert key now s

-- The loop of Cleanup, over the entries as they were.
unfoldable pub clean_from : ℕ → Dict ℕ → Store → Store
clean_from now [] s = s
clean_from now ((k, v) ∷ entries) s =
    clean_from now entries (if ltb (v + ttl) now then erase k s else s)

unfoldable pub cleanup : ℕ → Store → Store
unfolding clean_from
cleanup now s = clean_from now s s

-- What a request has of keys: of the query, the header and the cookie. A missing query parameter is empty.
pub record Request : Type 0 where
  pub suk : Str
  pub auth_key : Str
  pub authorization : Str
  pub cookie : Option Str

unfoldable pub is_bearer : Str → Str → Bool
is_bearer key header = elim (strip_prefix (codes "Bearer ") header) [
  | none ↦ false
  | some k ↦ str_eq k key
]

unfoldable pub is_cookie : Str → Option Str → Bool
is_cookie key none = false
is_cookie key (some k) = str_eq k key

-- ServeHTTP of Auth: whether the request is passed on, and the store.
unfoldable pub serve : Str → ℕ → Request → Store → Bool × Store
unfolding authenticate is_bearer is_cookie
serve key now r s =
    let (once, s') = authenticate r.suk now s in
    (
      once || (str_eq r.auth_key key || (is_bearer key r.authorization || is_cookie key r.cookie)),
      s',
    )

pub data Event : Type 0 where
  made tried : Str → Event
  cleaned : Event

unfoldable pub happen : Event → ℕ → Store → Store
unfolding authenticate new cleanup
happen (made k) now s = new k now s
happen (tried k) now s = (authenticate k now s).1
happen cleaned now s = cleanup now s

-- Events with their times, one after the other.
unfoldable pub run : List (Event × ℕ) → Store → Store
unfolding happen
run [] s = s
run ((e, now) ∷ es) s = run es (happen e now s)
