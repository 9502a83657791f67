-- ===== src/Service/Registry/Tests.antt =====
-- An empty list of services, and one transport service.
use alkasir.Base.{◌≡◌, ◌≢◌, refl, true, false, none, some, [], ◌∷◌, arith, codes, str_eq}
use alkasir.Base.Dict.{lookup}
use alkasir.Shared.Connection.{Connection}
use alkasir.Shared.Transport.{Transport}
use alkasir.Service.Registry.{Service, World, new_service}
use alkasir.Service.Registry.Laws.{IsOrderly}
use alkasir.Service.Registry.Runs.{make, launch, halt, discard, run_all, run_all-IsOrderly}
use alkasir.Service.Registry.Transports.{command_of}

abbrev empty : World
empty = record {
  objects = [];
  items = [];
  service_ids = record { count = 0; prefix = codes "service" };
  method_ids = record { count = 0; prefix = codes "method" };
}

empty-IsOrderly : IsOrderly empty
empty-IsOrderly = (omega arith, tt)

run_all-IsOrderly_example :
    IsOrderly (run_all (make (codes "a") ∷ launch 0 none ∷ halt 0 ∷ discard 0 ∷ []) empty)
    × (new_service
          (codes "b")
          (run_all (make (codes "a") ∷ launch 0 none ∷ halt 0 ∷ discard 0 ∷ []) empty)
        ≢ none)
run_all-IsOrderly_example =
    run_all-IsOrderly (make (codes "a") ∷ launch 0 none ∷ halt 0 ∷ discard 0 ∷ []) (codes "b") empty
      empty-IsOrderly (omega arith)

-- A running service under the id service-1.
abbrev running : Service
running = record {
  id = codes "service-1";
  name = codes "transport";
  running = true;
  command = codes "alkasir-client";
  request = [];
  response = [];
  methods = [];
  auth_secret = [];
  remove_on_stop = false;
  is_copy = false;
}

abbrev one : World
one = record empty { objects = running ∷ []; items = (codes "service-1", 0) ∷ [] }

abbrev conn : Connection
conn = record {
  transport = codes "obfs4";
  secret = codes "s";
  addr = codes "192.0.2.1:443";
  disabled = false;
  protected = false;
  id = codes "c";
}

abbrev obfs4 : Transport
obfs4 = record { name = codes "obfs4"; bundled = true; command = []; tor_pt = true }

known :
    command_of (codes "alkasir-client") (lookup conn.transport ((codes "obfs4", obfs4) ∷ []))
    ≡ some (codes "alkasir-client")
unfolding command_of lookup str_eq
known = refl
