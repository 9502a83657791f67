-- ===== src/Service/Environment/Tests.antt =====
-- A request for a transport, in an environment with variables of its own.
use alkasir.Base.{◌≡◌, refl, List, [], ◌∷◌, arith, Str, codes, str_eq, strip_prefix}
use alkasir.Base.Dict.{Dict, lookup}
use alkasir.Service.Environment.{
  to_upper, other_vars, request_vars, init_env, getenv, env_name, has, option, handles, bind_addr,
}
use alkasir.Service.Environment.Laws.{IsPlain, handles-init_env}

abbrev request : Dict Str
request = (codes "service", codes "transport") ∷ (codes "transport", codes "obfs4") ∷ []

abbrev osenv : List Str
osenv = codes "HOME=/root" ∷ codes "ALKASIR_TRANSPORT=obfs3" ∷ []

written :
    init_env osenv request (codes "key")
    ≡ codes "HOME=/root"
      ∷ codes "ALKASIR_SERVICE=transport"
      ∷ codes "ALKASIR_TRANSPORT=obfs4"
      ∷ codes "ALKASIR_SAUTH=key"
      ∷ codes "ALKASIR_SADDR=http://localhost:8899/api/transports/traffic/"
      ∷ []
unfolding init_env other_vars request_vars to_upper str_eq strip_prefix
written = refl

unset : bind_addr osenv (option (codes "bindaddr")) ≡ codes "127.0.0.1:"
unfolding bind_addr has getenv env_name to_upper str_eq strip_prefix
unset = refl

request-IsPlain : IsPlain request
request-IsPlain = ground arith

handles-init_env_example :
    handles (init_env osenv request (codes "key")) (codes "obfs3")
    ≡ str_eq (codes "obfs4") (codes "obfs3")
unfolding lookup str_eq
handles-init_env_example =
    handles-init_env osenv request (codes "key") (codes "obfs4") (codes "obfs3") request-IsPlain
      refl refl (λ e. cc)
