-- ===== src/Client/Auth/Tests.antt =====
-- A key that is made, and the requests that come with it.
use alkasir.Base.{
  ℕ, ◌≡◌, ◌||◌, refl, false, none, List, [], ◌∷◌, arith, str_eq, strip_prefix, codes,
}
use alkasir.Base.Dict.{lookup, insert, erase}
use alkasir.Client.Auth.{
  Request, is_bearer, is_cookie, serve, Event, made, tried, cleaned, run, happen, new, authenticate,
}
use alkasir.Client.Auth.Keys.{opens, fresh, serve-run}

abbrev request : Request
request = record { suk = codes "k"; auth_key = []; authorization = []; cookie = none }

abbrev events : List (Event × ℕ)
events = (made (codes "j"), 1) ∷ (made (codes "k"), 2) ∷ (tried (codes "j"), 3) ∷ (cleaned, 3) ∷ []

serve-run_example : (serve (codes "key") 9 request (run events [])).0 ≡ (
    opens 9 (fresh (codes "k") events none)
    || (str_eq [] (codes "key") || (is_bearer (codes "key") [] || is_cookie (codes "key") none)))
serve-run_example =
    serve-run (codes "key") events 9 request
      (omega arith, (omega arith, (omega arith, (omega arith, omega arith))))

-- The second request with the same key is refused.
refused_again :
    (serve (codes "key") 9 request (run ((made (codes "k"), 2) ∷ (tried (codes "k"), 3) ∷ []) [])).0
    ≡ false
unfolding serve run happen new authenticate lookup insert erase str_eq is_bearer is_cookie
    strip_prefix
refused_again = refl
