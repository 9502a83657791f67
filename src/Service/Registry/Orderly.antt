-- ===== src/Service/Registry/Orderly.antt =====
-- Every operation keeps the list in order, and making a service never ends the program.
use alkasir.Base.{
  ℕ, ◌+◌, ◌^◌, ◌%◌, ◌<◌, ◌≡◌, refl, inl, inr, false, none, some, List, [], ◌∷◌, ◌++◌, arith, Str,
  length, Option-cases,
}
use alkasir.Base.Dict.{lookup, insert, lookup-insert_self}
use alkasir.Shared.Ids.{IdGen, key, new_id}
use alkasir.Service.Protocol.{Exposed}
use alkasir.Service.Registry.{
  Service, World, copy, at, store, add, remove, service, new_service, register_method,
  register_methods,
}
use alkasir.Service.Registry.Laws.{
  IsOrderly, IsEntry, get_elem?-snoc, fresh, grown, written, inserted, erased,
}

pub store-IsOrderly :
    (p : ℕ) (s s' : Service) (w : World)
    → at p w ≡ some s
    → s'.id ≡ s.id
    → IsOrderly w
    → IsOrderly (store p s' w)
unfolding at store
store-IsOrderly p s s' w e i (b, v) =
    (b, written w.objects w.service_ids.prefix w.service_ids.count p w.items s s' e i v)

pub remove-IsOrderly : (id : Str) (w : World) → IsOrderly w → IsOrderly (remove id w).0
unfolding remove
remove-IsOrderly id w (b, v) = elim (Option-cases (lookup id w.items)) [
  | inl absent ↦ rw (absent, remove) (b, v)
  | inr (p, found) ↦
      rw (found, remove)
        (b, erased (IsEntry w.objects w.service_ids.prefix w.service_ids.count) id w.items v)
]

register_method-IsOrderly :
    (p : ℕ) (e : Exposed) (w : World) → IsOrderly w → IsOrderly (register_method p e w)
unfolding register_method at
register_method-IsOrderly p e w v = elim (Option-cases (at p w)) [
  | inl absent ↦ rw (absent, register_method) v
  | inr (s, found) ↦
      rw (found, register_method)
        (store-IsOrderly p s _ (record w { method_ids = (new_id w.method_ids).1 }) found refl v)
]

pub register_methods-IsOrderly :
    (p : ℕ) (es : List Exposed) (w : World) → IsOrderly w → IsOrderly (register_methods p es w)
unfolding register_methods
register_methods-IsOrderly p [] w v = v
register_methods-IsOrderly p (e ∷ es) w v =
    register_methods-IsOrderly p es (register_method p e w) (register_method-IsOrderly p e w v)

new_id_room :
    (g : IdGen)
    → g.count + 1 < 2 ^ 64
    → new_id g ≡ (key g.prefix (g.count + 1), record g { count = g.count + 1 })
unfolding new_id
new_id_room g room = let e : ((g.count + 1) % 2 ^ 64) ≡ g.count + 1 = omega arith in rw e refl

-- The new object of NewService.
abbrev blank : Str → Str → Service
blank id name = record {
  id = id;
  name = name;
  running = false;
  command = [];
  request = [];
  response = [];
  methods = [];
  auth_secret = [];
  remove_on_stop = false;
  is_copy = false;
}

add_fresh :
    (id : Str) (p : ℕ) (w : World)
    → lookup id w.items ≡ none
    → add id p w ≡ some (record w { items = insert id p w.items })
unfolding add
add_fresh id p w e = rw (e, add)

service_found :
    (id : Str) (p : ℕ) (s : Service) (w : World)
    → lookup id w.items ≡ some p
    → at p w ≡ some s
    → service id w ≡ some (copy s)
unfolding service
service_found id p s w e f = rw (e, f, service)

pub service_absent : (id : Str) (w : World) → lookup id w.items ≡ none → service id w ≡ none
unfolding service
service_absent id w e = rw (e, service)

-- The generator of service ids and the list are in order after a service was made, and it is found
-- under its id, which was not in use: with fewer than 2^64 - 1 ids given, making a service does not
-- end the program.
pub new_service_total :
    (name : Str) (w : World)
    → IsOrderly w
    → w.service_ids.count + 1 < 2 ^ 64
    → (p : ℕ) × (w' : World) × (s : Service) × (new_service name w ≡ some (p, w'))
      × (at p w' ≡ some s)
      × (s.name ≡ name)
      × (s.running ≡ false)
      × (service s.id w' ≡ some (copy s))
      × (service s.id w ≡ none)
      × (w'.service_ids.count ≡ w.service_ids.count + 1)
      × IsOrderly w'
unfolding new_service at
new_service_total name w (b, v) room =
    let g = w.service_ids in
    let id = key g.prefix (g.count + 1) in
    let p = length w.objects in
    let s = blank id name in
    let objects = w.objects ++ s ∷ [] in
    let ids : IdGen = record g { count = g.count + 1 } in
    let unused = fresh w.objects g.prefix g.count (g.count + 1) w.items (omega arith) v in
    let w1 : World = record w { objects = objects; service_ids = ids } in
    let w2 : World = record w1 { items = insert id p w.items } in
    let here = get_elem?-snoc w.objects s in
    let entry : IsEntry objects g.prefix (g.count + 1) (id, p) =
      (g.count + 1, omega arith, refl, s, here, refl) in
    (
      p,
      w2,
      s,
      rw (new_id_room g room, new_service) (rw (add_fresh id p w1 unused, new_service) refl),
      here,
      refl,
      refl,
      service_found id p s w2 (lookup-insert_self id p w.items) here,
      service_absent id w unused,
      refl,
      (
        room,
        inserted (IsEntry objects g.prefix (g.count + 1)) id p w.items entry
            (grown w.objects (s ∷ []) g.prefix g.count (g.count + 1) w.items (omega arith) v),
      ),
    )
