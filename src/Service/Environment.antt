-- ===== src/Service/Environment.antt =====
-- The environment of a service process: how pkg/service/service.go, initEnv, writes it and how
-- pkg/service/server/server.go, Option, reads it. Letters are turned to upper case byte by byte; the
-- names in use are ASCII. The order in which Go ranges over the request is that of the association list.
pub mod Laws
mod Tests
use alkasir.Base.{
  ℕ, ◌+◌, ◌-◌, Bool, true, false, Option, none, some, List, [], ◌∷◌, ◌++◌, map, leb, Str, codes,
  str_eq, strip_prefix, is_some, not, ◌&&◌, ◌||◌, if◌then◌else◌,
}
use alkasir.Base.Dict.{Dict}

-- `strings.ToUpper`
abbrev pub upper : ℕ → ℕ
upper c = if leb b'a' c && leb c b'z' then c - 32 else c

unfoldable pub to_upper : Str → Str
to_upper [] = []
to_upper (c ∷ s) = upper c ∷ to_upper s

-- The first loop of initEnv.
unfoldable pub other_vars : List Str → List Str
other_vars [] = []
other_vars (v ∷ vs) =
    let rest = other_vars vs in
    if not (str_eq v (codes "ALKASIR_DEBUG")) && not (is_some (strip_prefix (codes "ALKASIR_") v))
    then v ∷ rest
    else rest

-- The second.
unfoldable pub request_vars : Dict Str → List Str
request_vars [] = []
request_vars ((key, value) ∷ request) =
    (codes "ALKASIR_" ++ (to_upper key ++ b'=' ∷ value)) ∷ request_vars request

unfoldable pub init_env : List Str → Dict Str → Str → List Str
init_env osenv request auth_secret =
    other_vars osenv
    ++ (request_vars request
        ++ (codes "ALKASIR_SAUTH=" ++ auth_secret)
          ∷ codes "ALKASIR_SADDR=http://localhost:8899/api/transports/traffic/"
          ∷ [])

-- `os.Getenv`: the value behind the first entry of the name, and the empty text without one.
unfoldable pub getenv : List Str → Str → Str
getenv [] name = []
getenv (e ∷ env) name = elim (strip_prefix (name ++ b'=' ∷ []) e) [
  | some v ↦ v
  | none ↦ getenv env name
]

pub record EnvOption : Type 0 where
  pub name : Str
  pub default_value : Str

unfoldable pub env_name : EnvOption → Str
env_name o = codes "ALKASIR_" ++ to_upper o.name

unfoldable pub has : List Str → EnvOption → Bool
has env o = not (str_eq o.default_value []) || not (str_eq (getenv env (env_name o)) [])

unfoldable pub get : List Str → EnvOption → Str
get env o = if str_eq (getenv env (env_name o)) [] then o.default_value else getenv env (env_name o)

unfoldable pub is_value : List Str → Str → EnvOption → Bool
is_value env value o = has env o && str_eq (get env o) value

-- Whether there is an error.
unfoldable pub required : List Str → EnvOption → Bool
required env o = str_eq (getenv env (env_name o)) []

unfoldable pub bind_addr : List Str → EnvOption → Str
bind_addr env o = if has env o then get env o else codes "127.0.0.1:"

abbrev pub option : Str → EnvOption
option name = record { name = name; default_value = [] }

-- MethodHandler.Handles
unfoldable pub handles : List Str → Str → Bool
handles env method =
    str_eq (get env (option (codes "service"))) (codes "transport")
    && str_eq (get env (option (codes "transport"))) method
