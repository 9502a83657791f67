-- ===== src/Service/Registry.antt =====
-- pkg/service/service.go and misc.go: the services and the list of those that are managed. A service
-- is an object in a heap, and a pointer to it is its place there; the order in which Go ranges over the
-- list is that of the association list. A process is its output up to its end, or nothing where it cannot
-- be started. Logging and waiting for processes are left out.
pub mod Transports
pub mod Laws
pub mod Orderly
pub mod Runs
mod Tests
use alkasir.Base.{
  ℕ, ◌+◌, Bool, true, false, Option, none, some, List, [], ◌∷◌, ◌++◌, map, Str, codes, str_eq, not,
  length, get_elem?, set, if◌then◌else◌,
}
use alkasir.Base.Dict.{Dict, lookup, insert, erase, values}
use alkasir.Base.Trim.{trim_space}
use alkasir.Shared.Ids.{IdGen, new_id}
use alkasir.Service.Protocol.{Exposed, Response, InitError, init_service}

-- `service` is the pointer to the owning service.
pub record Method : Type 0 where
  pub id : Str
  pub name : Str
  pub service : ℕ
  pub bind_addr : Str
  pub protocol : Str

pub record Service : Type 0 where
  pub id : Str
  pub name : Str
  pub running : Bool
  pub command : Str
  pub request : Dict Str
  pub response : Dict Str
  pub methods : List Method
  pub auth_secret : Str
  pub remove_on_stop : Bool
  pub is_copy : Bool

-- All objects, the managed ones by id, and the two generators of ids.
pub record World : Type 0 where
  pub objects : List Service
  pub items : Dict ℕ
  pub service_ids : IdGen
  pub method_ids : IdGen

unfoldable pub copy : Service → Service
copy s = record s { is_copy = true }

unfoldable pub at : ℕ → World → Option Service
at p w = get_elem? w.objects p

unfoldable pub store : ℕ → Service → World → World
store p s w = record w { objects = set w.objects p s }

-- Services.add; nothing where the id is taken.
unfoldable pub add : Str → ℕ → World → Option World
add id p w = elim (lookup id w.items) [
  | some _ ↦ none
  | none ↦ some (record w { items = insert id p w.items })
]

-- Services.remove, and whether there is an error.
unfoldable pub remove : Str → World → World × Bool
remove id w = elim (lookup id w.items) [
  | none ↦ (w, true)
  | some _ ↦ (record w { items = erase id w.items }, false)
]

-- Services.Service: a copy of the managed object.
unfoldable pub service : Str → World → Option Service
service id w = elim (lookup id w.items) [
  | none ↦ none
  | some p ↦ elim (at p w) [ none ↦ none | some s ↦ some (copy s) ]
]

unfoldable pub all_of : (Service → List Method) → List ℕ → World → List Method
all_of f [] w = []
all_of f (p ∷ ps) w =
    let rest = all_of f ps w in elim (at p w) [ none ↦ rest | some s ↦ f s ++ rest ]

unfoldable pub all_services : List ℕ → World → List Service
all_services [] w = []
all_services (p ∷ ps) w =
    let rest = all_services ps w in elim (at p w) [ none ↦ rest | some s ↦ copy s ∷ rest ]

unfoldable pub all_methods : World → List Method
all_methods w = all_of (λ s. s.methods) (values w.items) w

-- The loop of Services.Method: the last one with the id.
unfoldable pub last_method : Str → List Method → Option Method → Option Method
last_method id [] found = found
last_method id (m ∷ ms) found = last_method id ms (if str_eq m.id id then some m else found)

unfoldable pub method : Str → World → Option Method
method id w = if str_eq (trim_space id) [] then none else last_method id (all_methods w) none

-- NewService; nothing where the program ends, since the id is taken.
unfoldable pub new_service : Str → World → Option (ℕ × World)
new_service name w =
    let (id, ids) = new_id w.service_ids in
    let p = length w.objects in
    let s : Service = record {
      id = id;
      name = name;
      running = false;
      command = [];
      request = [];
      response = [];
      methods = [];
      auth_secret = [];
      remove_on_stop = false;
      is_copy = false;
    } in
    elim (add id p (record w { objects = w.objects ++ s ∷ []; service_ids = ids })) [
      | none ↦ none
      | some w' ↦ some (p, w')
    ]

-- registerMethod
unfoldable pub register_method : ℕ → Exposed → World → World
register_method p e w = elim (at p w) [
  | none ↦ w
  | some s ↦
      let (id, ids) = new_id w.method_ids in
      let m : Method = record {
        id = id;
        name = e.name;
        service = p;
        bind_addr = e.bind_addr;
        protocol = e.protocol;
      } in
      store p (record s { methods = s.methods ++ m ∷ [] }) (record w { method_ids = ids })
]

unfoldable pub register_methods : ℕ → List Exposed → World → World
register_methods p [] w = w
register_methods p (e ∷ es) w = register_methods p es (register_method p e w)

pub data StartError : Type 0 where
  cannot_start : StartError
  bad_init : InitError → StartError

-- initDone, where initService gave no error.
unfoldable pub finish : ℕ → Option InitError → World → World × Option StartError
finish p (some e) w = (w, some (bad_init e))
finish p none w = elim (at p w) [
  | none ↦ (w, none)
  | some s ↦ (store p (record s { running = true }) w, none)
]

-- Start of a service whose process gives this output.
unfoldable pub start : ℕ → Option Str → World → World × Option StartError
start p none w = (w, some cannot_start)
start p (some stdout) w = elim (at p w) [
  | none ↦ (w, none)
  | some s ↦
      let (r, e) = init_service stdout (record { vars = s.response; methods = [] }) in
      finish p e (register_methods p r.methods (store p (record s { response = r.vars }) w))
]

-- What the service's goroutine does at the end of a running service, on `Stop`.
unfoldable pub stop : ℕ → World → World
stop p w = elim (at p w) [
  | none ↦ w
  | some s ↦
      if not s.running
      then w
      else store p (record s { running = false })
          (if s.remove_on_stop then (remove s.id w).0 else w)
]

-- Service.Remove, and whether there is an error.
unfoldable pub remove_service : ℕ → World → World × Bool
remove_service p w = elim (at p w) [
  | none ↦ (w, false)
  | some s ↦
      if s.running
      then (stop p (store p (record s { remove_on_stop = true }) w), false)
      else remove s.id w
]

-- SetVar; nothing where it panics.
unfoldable pub set_var : Str → Str → Service → Option Service
set_var k v s = if s.running then none else some (record s { request = insert k v s.request })
