-- ===== src/Service/Registry/Transports.antt =====
-- pkg/service/service.go: a service for a connection, and its settings before it is started.
use alkasir.Base.{
  ℕ, Bool, true, false, Option, none, some, List, [], ◌∷◌, Str, codes, str_eq, not, if◌then◌else◌,
}
use alkasir.Base.Dict.{Dict, lookup, insert}
use alkasir.Shared.Connection.{Connection}
use alkasir.Shared.Transport.{Transport}
use alkasir.Service.Registry.{Service, World, at, store, new_service, set_var}
pub mod Laws

-- A missing key gives the zero value.
abbrev pub or_empty : Option Str → Str
or_empty none = []
or_empty (some s) = s

-- Whether the setting was refused with an error; nothing at all where the program panics.
unfoldable pub set_bindaddr : Str → Service → Option (Service × Bool)
set_bindaddr addr s =
    if s.running
    then some (s, true)
    else elim (set_var (codes "bindaddr") addr s) [ none ↦ none | some s' ↦ some (s', false) ]

unfoldable pub set_verbose : Service → Option (Service × Bool)
set_verbose s =
    if s.running then some (s, true) else elim (set_var (codes "verbose") (codes "yes") s) [
      | none ↦ none
      | some s' ↦ some (s', false)
    ]

unfoldable pub set_parent : Service → Service → Option (Service × Bool)
set_parent parent s =
    if s.running
    then some (s, true)
    else if not parent.running
    then some (s, true)
    else elim (set_var (codes "parentaddr") (or_empty (lookup (codes "bindaddr") parent.response))
        s) [ none ↦ none | some s' ↦ some (s', false) ]

-- The command for a transport, if there is one; `arg0` is the program's own.
unfoldable pub command_of : Str → Option Transport → Option Str
command_of arg0 none = none
command_of arg0 (some t) =
    if t.bundled then some arg0 else if not (str_eq t.command []) then some t.command else none

pub data Created : Type 0 where
  created : ℕ → World → Created
  no_command : Created
  -- The end of the program.
  fatal : Created

-- The four calls of SetVar.
unfoldable pub set_vars : Connection → Service → Option Service
set_vars c s = elim (set_var (codes "service") (codes "transport") s) [
  | none ↦ none
  | some s ↦ elim (set_var (codes "transport") c.transport s) [
    | none ↦ none
    | some s ↦ elim (set_var (codes "remoteaddr") c.addr s) [
      | none ↦ none
      | some s ↦ set_var (codes "secret") c.secret s
    ]
  ]
]

unfoldable pub new_transport_service : Str → Dict Transport → Connection → World → Created
new_transport_service arg0 transports c w = elim (command_of arg0 (lookup c.transport transports)) [
  | none ↦ no_command
  | some command ↦ elim (new_service (codes "transport") w) [
    | none ↦ fatal
    | some (p, w') ↦ elim (at p w') [
      | none ↦ fatal
      | some s ↦ elim (set_vars c (record s { command = command })) [
        | none ↦ fatal
        | some s' ↦ created p (store p s' w')
      ]
    ]
  ]
]
