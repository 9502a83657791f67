-- ===== src/Service/Registry/Transports/Laws.antt =====
-- What a new transport service is set up with.
use alkasir.Base.{
  ℕ, ◌+◌, ◌^◌, ◌<◌, ◌≡◌, refl, ◌∙◌, true, false, some, arith, Str, codes, str_eq, not, ◌||◌,
  if◌then◌else◌,
}
use alkasir.Base.Dict.{Dict, lookup, insert, lookup-insert}
use alkasir.Shared.Connection.{Connection}
use alkasir.Shared.Transport.{Transport}
use alkasir.Service.Registry.{Service, World, at, store, set_var}
use alkasir.Service.Registry.Laws.{IsOrderly}
use alkasir.Service.Registry.Orderly.{new_service_total, store-IsOrderly}
use alkasir.Service.Registry.Runs.{at-store}
use alkasir.Service.Registry.Transports.{
  command_of, created, set_vars, new_transport_service, set_parent, or_empty,
}

-- The request that a transport service starts with.
abbrev pub request_of : Connection → Dict Str → Dict Str
request_of c r = insert (codes "secret") c.secret (
    insert (codes "remoteaddr") c.addr
      (insert (codes "transport") c.transport (insert (codes "service") (codes "transport") r)))

set_vars_lem :
    (c : Connection) (s : Service)
    → s.running ≡ false
    → set_vars c s ≡ some (record s { request = request_of c s.request })
unfolding set_vars set_var
set_vars_lem c s idle = ground arith

lookup-request_of :
    (c : Connection) (r : Dict Str)
    → (lookup (codes "service") (request_of c r) ≡ some (codes "transport"))
      × (lookup (codes "transport") (request_of c r) ≡ some c.transport)
      × (lookup (codes "remoteaddr") (request_of c r) ≡ some c.addr)
      × (lookup (codes "secret") (request_of c r) ≡ some c.secret)
unfolding str_eq
lookup-request_of c r =
    let r1 = insert (codes "service") (codes "transport") r in
    let r2 = insert (codes "transport") c.transport r1 in
    let r3 = insert (codes "remoteaddr") c.addr r2 in
    (
      lookup-insert (codes "secret") (codes "service") c.secret r3
          ∙ lookup-insert (codes "remoteaddr") (codes "service") c.addr r2
          ∙ lookup-insert (codes "transport") (codes "service") c.transport r1
          ∙ lookup-insert (codes "service") (codes "service") (codes "transport") r,
      lookup-insert (codes "secret") (codes "transport") c.secret r3
          ∙ lookup-insert (codes "remoteaddr") (codes "transport") c.addr r2
          ∙ lookup-insert (codes "transport") (codes "transport") c.transport r1,
      lookup-insert (codes "secret") (codes "remoteaddr") c.secret r3
          ∙ lookup-insert (codes "remoteaddr") (codes "remoteaddr") c.addr r2,
      lookup-insert (codes "secret") (codes "secret") c.secret r3,
    )

-- For a transport with a command, and a list of services in order with an id to spare, a transport
-- service is made: it is not running, has the command, and its request holds the kind of service and
-- the transport, address and secret of the connection. The list is in order again.
pub new_transport_service_total :
    (arg0 : Str) (transports : Dict Transport) (c : Connection) (w : World) (command : Str)
    → command_of arg0 (lookup c.transport transports) ≡ some command
    → IsOrderly w
    → w.service_ids.count + 1 < 2 ^ 64
    → (p : ℕ) × (w' : World) × (s : Service) × (new_transport_service arg0 transports c w
        ≡ created p w')
      × (at p w' ≡ some s)
      × (s.running ≡ false)
      × (s.command ≡ command)
      × (lookup (codes "service") s.request ≡ some (codes "transport"))
      × (lookup (codes "transport") s.request ≡ some c.transport)
      × (lookup (codes "remoteaddr") s.request ≡ some c.addr)
      × (lookup (codes "secret") s.request ≡ some c.secret)
      × IsOrderly w'
unfolding new_transport_service
new_transport_service_total arg0 transports c w command known v room =
    let (p, w1, s, made, here, _, idle, _, _, _, v1) =
      new_service_total (codes "transport") w v room in
    let s1 : Service = record s { command = command } in
    let s2 : Service = record s1 { request = request_of c s.request } in
    let set1 = set_vars_lem c s1 idle in
    let (a, b, d, e) = lookup-request_of c s.request in
    (
      p,
      store p s2 w1,
      s2,
      rw (known, made, here, set1, new_transport_service),
      at-store p s s2 w1 here,
      idle,
      refl,
      a,
      b,
      d,
      e,
      store-IsOrderly p s s2 w1 here refl v1,
    )

-- A parent's address is taken exactly if the service is not running and the parent is: the request
-- then has the address that the parent exposed. Otherwise there is an error, and nothing changes.
pub set_parent_lem :
    (parent s : Service)
    → set_parent parent s ≡ (
        if s.running || not parent.running
        then some (s, true)
        else some (
          record s {
            request =
                insert
                  (codes "parentaddr")
                  (or_empty (lookup (codes "bindaddr") parent.response))
                  s.request;
          },
          false,
        ))
unfolding set_parent set_var
set_parent_lem parent s = ground arith
