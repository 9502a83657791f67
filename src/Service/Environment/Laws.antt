-- ===== src/Service/Environment/Laws.antt =====
-- A process reads the variables that were set for it.
use alkasir.Base.{
  ℕ, ◌≤◌, ◌≡◌, ◌≢◌, refl, ◌∙◌, ap, Option, none, some, List, [], ◌∷◌, ◌++◌, arith, Str, codes,
  str_eq, str_eq_iff, str_eq_refl, strip_prefix, All, if◌then◌else◌,
}
use alkasir.Base.Dict.{Dict, lookup}
use alkasir.Service.Environment.{
  to_upper, other_vars, request_vars, init_env, getenv, env_name, get, option, handles,
}

-- A lower case letter, and a name of them.
abbrev pub IsLower : ℕ → Type 0
IsLower c = (b'a' ≤ c) × (c ≤ b'z')

abbrev pub IsPlain : Dict Str → Type 0
IsPlain [] = Unit
IsPlain ((k, _) ∷ r) = All IsLower k × IsPlain r

-- A variable's entry is found by its own name and by no other.
same_name :
    (k j v : Str)
    → All IsLower k
    → All IsLower j
    → strip_prefix (to_upper k ++ b'=' ∷ []) (to_upper j ++ b'=' ∷ v)
      ≡ (if str_eq j k then some v else none)
unfolding strip_prefix to_upper str_eq
same_name [] [] v hk hj = refl
same_name [] (d ∷ j) v hk hj = ground arith
same_name (c ∷ k) [] v hk hj = ground arith
same_name (c ∷ k) (d ∷ j) v hk hj = ground (arith, same_name k j v hk.1 hj.1)

strip_prefix-append_both : (p s t : Str) → strip_prefix (p ++ s) (p ++ t) ≡ strip_prefix s t
unfolding strip_prefix
strip_prefix-append_both [] s t = refl
strip_prefix-append_both (c ∷ p) s t = ground (arith, strip_prefix-append_both p s t)

-- What has the longer prefix has the shorter.
strip_prefix_shorter : (p s t : Str) → strip_prefix p t ≡ none → strip_prefix (p ++ s) t ≡ none
unfolding strip_prefix
strip_prefix_shorter [] s t e = cc
strip_prefix_shorter (c ∷ p) s [] e = refl
strip_prefix_shorter (c ∷ p) s (d ∷ t) e = ground (arith, strip_prefix_shorter p s t)

getenv-other_vars :
    (osenv rest : List Str) (name : Str)
    → getenv (other_vars osenv ++ rest) (codes "ALKASIR_" ++ name)
      ≡ getenv rest (codes "ALKASIR_" ++ name)
unfolding getenv other_vars
getenv-other_vars [] rest name = refl
getenv-other_vars (e ∷ osenv) rest name = ground (
  arith,
  strip_prefix_shorter (codes "ALKASIR_") (name ++ b'=' ∷ []) e,
  getenv-other_vars osenv rest name,
)

-- The value of the first entry with the key, or else what the rest of the environment says.
abbrev pub value_or : Option Str → Str → Str
value_or none old = old
value_or (some v) old = v

getenv-request_vars :
    (k : Str) (r : Dict Str) (rest : List Str)
    → All IsLower k
    → IsPlain r
    → getenv (request_vars r ++ rest) (codes "ALKASIR_" ++ to_upper k)
      ≡ value_or (lookup k r) (getenv rest (codes "ALKASIR_" ++ to_upper k))
unfolding getenv request_vars lookup
getenv-request_vars k [] rest hk h = refl
getenv-request_vars k ((j, v) ∷ r) rest hk h = ground (
  arith,
  strip_prefix-append_both (codes "ALKASIR_") (to_upper k ++ b'=' ∷ []) (to_upper j ++ b'=' ∷ v),
  same_name k j v hk h.0,
  getenv-request_vars k r rest hk h.1,
)

getenv-init_env :
    (osenv : List Str) (r : Dict Str) (auth k v : Str)
    → All IsLower k
    → IsPlain r
    → lookup k r ≡ some v
    → getenv (init_env osenv r auth) (env_name (option k)) ≡ v
unfolding init_env env_name
getenv-init_env osenv r auth k v hk h e =
    let rest =
      (codes "ALKASIR_SAUTH=" ++ auth)
      ∷ codes "ALKASIR_SADDR=http://localhost:8899/api/transports/traffic/"
      ∷ [] in
    getenv-other_vars osenv (request_vars r ++ rest) (to_upper k)
    ∙ getenv-request_vars k r rest hk h
    ∙ ap (λ o. value_or o (getenv rest (codes "ALKASIR_" ++ to_upper k))) e

-- In the environment of a service whose variables have names of lower case letters, the process
-- reads each non-empty variable by its name, whatever the environment of the client was.
pub get-init_env :
    (osenv : List Str) (r : Dict Str) (auth k v : Str)
    → All IsLower k
    → IsPlain r
    → lookup k r ≡ some v
    → v ≢ []
    → get (init_env osenv r auth) (option k) ≡ v
unfolding get
get-init_env osenv r auth k v hk h e ne =
    ground (arith, getenv-init_env osenv r auth k v hk h e, str_eq_iff v [])

-- If the request of a service has names of lower case letters only, and holds the kind transport
-- and the name of a transport that is not empty, then in the environment made from it Handles is
-- true for the method of that name and for no other, whatever the client's own environment was.
pub handles-init_env :
    (osenv : List Str) (r : Dict Str) (auth transport method : Str)
    → IsPlain r
    → lookup (codes "service") r ≡ some (codes "transport")
    → lookup (codes "transport") r ≡ some transport
    → transport ≢ []
    → handles (init_env osenv r auth) method ≡ str_eq transport method
unfolding handles
handles-init_env osenv r auth transport method h s t ne =
    let env = init_env osenv r auth in
    let kind : get env (option (codes "service")) ≡ codes "transport" =
      get-init_env osenv r auth (codes "service") (codes "transport") (ground arith) h s
        (λ e. cc) in
    let name : get env (option (codes "transport")) ≡ transport =
      get-init_env osenv r auth (codes "transport") transport (ground arith) h t ne in
    rw (kind, name, str_eq_refl (codes "transport")) refl
