-- ===== src/Service/Registry/Runs.antt =====
-- Runs of the operations on services.
use alkasir.Base.{
  ℕ, zero, suc, ◌+◌, ◌^◌, ◌<◌, ◌≤◌, ◌≡◌, ◌≢◌, refl, ◌∙◌, ap, inl, inr, true, false, Option, none,
  some, List, [], ◌∷◌, arith, Str, str_eq, length, get_elem?, set, if◌then◌else◌, Option-cases,
  Bool-cases,
}
use alkasir.Base.Dict.{lookup, erase, lookup-erase_self, lookup-erase}
use alkasir.Service.Protocol.{Exposed, InitError, init_service}
use alkasir.Service.Registry.{
  Service, World, at, store, remove, service, new_service, register_method, register_methods,
  finish, start, stop, remove_service,
}
use alkasir.Service.Registry.Laws.{IsOrderly}
use alkasir.Service.Registry.Orderly.{
  store-IsOrderly, remove-IsOrderly, register_methods-IsOrderly, new_service_total, service_absent,
}

finish-IsOrderly :
    (p : ℕ) (e : Option InitError) (w : World) → IsOrderly w → IsOrderly (finish p e w).0
unfolding finish at
finish-IsOrderly p (some e) w v = v
finish-IsOrderly p none w v = elim (Option-cases (at p w)) [
  | inl absent ↦ rw (absent, finish) v
  | inr (s, found) ↦ rw (found, finish) (store-IsOrderly p s _ w found refl v)
]

start-IsOrderly :
    (p : ℕ) (output : Option Str) (w : World) → IsOrderly w → IsOrderly (start p output w).0
unfolding start at
start-IsOrderly p none w v = v
start-IsOrderly p (some stdout) w v = elim (Option-cases (at p w)) [
  | inl absent ↦ rw (absent, start) v
  | inr (s, found) ↦
      let (r, e) = init_service stdout (record { vars = s.response; methods = [] }) in
      let s' : Service = record s { response = r.vars } in
      rw (found, start)
        (finish-IsOrderly p e (register_methods p r.methods (store p s' w)) (
          register_methods-IsOrderly p r.methods (store p s' w)
            (store-IsOrderly p s s' w found refl v)))
]

at-remove : (id : Str) (p : ℕ) (w : World) → at p (remove id w).0 ≡ at p w
unfolding remove at
at-remove id p w = ground arith

stop-IsOrderly : (p : ℕ) (w : World) → IsOrderly w → IsOrderly (stop p w)
unfolding stop at
stop-IsOrderly p w v = elim (Option-cases (at p w)) [
  | inl absent ↦ rw (absent, stop) v
  | inr (s, found) ↦ elim (Bool-cases s.running) [
    | inr idle ↦ rw (found, idle, stop) v
    | inl busy ↦ elim (Bool-cases s.remove_on_stop) [
      | inr stays ↦ rw (found, busy, stays, stop) (store-IsOrderly p s _ w found refl v)
      | inl goes ↦
          rw (found, busy, goes, stop)
            (store-IsOrderly p s _ (remove s.id w).0 (at-remove s.id p w ∙ found) refl
              (remove-IsOrderly s.id w v))
    ]
  ]
]

remove_service-IsOrderly : (p : ℕ) (w : World) → IsOrderly w → IsOrderly (remove_service p w).0
unfolding remove_service at
remove_service-IsOrderly p w v = elim (Option-cases (at p w)) [
  | inl absent ↦ rw (absent, remove_service) v
  | inr (s, found) ↦ elim (Bool-cases s.running) [
    | inl busy ↦
        let s' : Service = record s { running = true; remove_on_stop = true } in
        rw (found, busy, remove_service)
          (stop-IsOrderly p (store p s' w) (store-IsOrderly p s s' w found refl v))
    | inr idle ↦ rw (found, idle, remove_service) (remove-IsOrderly s.id w v)
  ]
]

-- The operations on services by the pointer they are given.
pub data Operation : Type 0 where
  make : Str → Operation
  launch : ℕ → Option Str → Operation
  halt : ℕ → Operation
  discard : ℕ → Operation

-- Where a new service is the end of the program, nothing changes any more.
abbrev pub run : Operation → World → World
run (make name) w = elim (new_service name w) [ none ↦ w | some (_, w') ↦ w' ]
run (launch p output) w = (start p output w).0
run (halt p) w = stop p w
run (discard p) w = (remove_service p w).0

register_methods-ids :
    (p : ℕ) (es : List Exposed) (w : World) → (register_methods p es w).service_ids ≡ w.service_ids
unfolding register_methods register_method store
register_methods-ids p [] w = refl
register_methods-ids p (e ∷ es) w = register_methods-ids p es (register_method p e w) ∙ ground arith

finish-ids :
    (p : ℕ) (e : Option InitError) (w : World) → (finish p e w).0.service_ids ≡ w.service_ids
unfolding finish store
finish-ids p (some e) w = refl
finish-ids p none w = ground arith

start-ids :
    (p : ℕ) (output : Option Str) (w : World) → (start p output w).0.service_ids ≡ w.service_ids
unfolding start store
start-ids p none w = refl
start-ids p (some stdout) w = elim (Option-cases (at p w)) [
  | inl absent ↦ rw (absent, start)
  | inr (s, found) ↦
      let (r, e) = init_service stdout (record { vars = s.response; methods = [] }) in
      let w' = store p (record s { response = r.vars }) w in
      rw (found, start)
        (finish-ids p e (register_methods p r.methods w') ∙ register_methods-ids p r.methods w')
]

stop-ids : (p : ℕ) (w : World) → (stop p w).service_ids ≡ w.service_ids
unfolding stop store remove
stop-ids p w = ground arith

remove_service-ids : (p : ℕ) (w : World) → (remove_service p w).0.service_ids ≡ w.service_ids
unfolding remove_service store remove
remove_service-ids p w = elim (Option-cases (at p w)) [
  | inl absent ↦ rw (absent, remove_service)
  | inr (s, found) ↦ elim (Bool-cases s.running) [
    | inl busy ↦
        let s' : Service = record s { running = true; remove_on_stop = true } in
        rw (found, busy, remove_service) (stop-ids p (store p s' w))
    | inr idle ↦ rw (found, idle, remove_service) (ground arith)
  ]
]

run-IsOrderly :
    (o : Operation) (w : World)
    → IsOrderly w
    → w.service_ids.count + 1 < 2 ^ 64
    → IsOrderly (run o w) × ((run o w).service_ids.count ≤ w.service_ids.count + 1)
run-IsOrderly (make name) w v room =
    let (p, w', s, made, _, _, _, _, _, next, v') = new_service_total name w v room in
    rw (made, run) (v', omega (arith, next))
run-IsOrderly (launch p output) w v room =
    (start-IsOrderly p output w v, omega (arith, ap (λ g. g.count) (start-ids p output w)))
run-IsOrderly (halt p) w v room =
    (stop-IsOrderly p w v, omega (arith, ap (λ g. g.count) (stop-ids p w)))
run-IsOrderly (discard p) w v room =
    (remove_service-IsOrderly p w v, omega (arith, ap (λ g. g.count) (remove_service-ids p w)))

abbrev pub run_all : List Operation → World → World
run_all [] w = w
run_all (o ∷ os) w = run_all os (run o w)

-- From a list where each id was given by the generator and leads to an object with that id, any
-- run of making, starting, stopping and removing services that is short enough for the 64-bit
-- counter leads to such a list, and one more service can be made.
pub run_all-IsOrderly :
    (os : List Operation) (name : Str) (w : World)
    → IsOrderly w
    → w.service_ids.count + length os + 1 < 2 ^ 64
    → IsOrderly (run_all os w) × (new_service name (run_all os w) ≢ none)
run_all-IsOrderly [] name w v room =
    let (p, w', s, made, _, _, _, _, _, next, v') = new_service_total name w v (omega arith) in
    (v, λ e. cc)
run_all-IsOrderly (o ∷ os) name w v room =
    let (v', le) = run-IsOrderly o w v (omega arith) in
    run_all-IsOrderly os name (run o w) v' (omega arith)

get_elem?-set_self :
    {A : Type 0} (xs : List A) (p : ℕ) (a b : A)
    → get_elem? xs p ≡ some a
    → get_elem? (set xs p b) p ≡ some b
get_elem?-set_self [] p a b e = cc
get_elem?-set_self (x ∷ xs) zero a b e = refl
get_elem?-set_self (x ∷ xs) (suc p) a b e = get_elem?-set_self xs p a b e

pub at-store :
    (p : ℕ) (s s' : Service) (w : World) → at p w ≡ some s → at p (store p s' w) ≡ some s'
unfolding at store
at-store p s s' w e = get_elem?-set_self w.objects p s s' e

remove-items :
    (id : Str) (p : ℕ) (w : World)
    → lookup id w.items ≡ some p
    → remove id w ≡ (record w { items = erase id w.items }, false)
unfolding remove
remove-items id p w e = rw (e, remove)

stop-items :
    (p : ℕ) (s : Service) (w : World)
    → at p w ≡ some s
    → s.running ≡ true
    → s.remove_on_stop ≡ true
    → (stop p w).items ≡ (remove s.id w).0.items
unfolding stop store
stop-items p s w e busy goes = rw (e, busy, goes, stop)

remove_service-items :
    (p : ℕ) (s : Service) (w : World)
    → at p w ≡ some s
    → lookup s.id w.items ≡ some p
    → ((remove_service p w).1 ≡ false) × ((remove_service p w).0.items ≡ erase s.id w.items)
unfolding remove_service store
remove_service-items p s w e f = elim (Bool-cases s.running) [
  | inl busy ↦
      let s' : Service = record s { running = true; remove_on_stop = true } in
      rw (e, busy, remove_service)
        (
          refl,
          stop-items p s' (store p s' w) (at-store p s s' w e) refl refl
              ∙ ap (λ x. x.0.items) (remove-items s.id p (store p s' w) f),
        )
  | inr idle ↦
      rw (e, idle, remove_service)
        (ap (λ x. x.1) (remove-items s.id p w f), ap (λ x. x.0.items) (remove-items s.id p w f))
]

-- Removing a managed service gives no error, whether it runs or not; it is then no longer found
-- under its id, and every other id is listed as it was.
pub remove_service-gone :
    (p : ℕ) (s : Service) (id : Str) (w : World)
    → at p w ≡ some s
    → lookup s.id w.items ≡ some p
    → ((remove_service p w).1 ≡ false)
      × (service s.id (remove_service p w).0 ≡ none)
      × (lookup id (remove_service p w).0.items
          ≡ (if str_eq s.id id then none else lookup id w.items))
remove_service-gone p s id w e f =
    let (fine, same) = remove_service-items p s w e f in
    (
      fine,
      service_absent s.id (remove_service p w).0
          (ap (lookup s.id) same ∙ lookup-erase_self s.id w.items),
      ap (lookup id) same ∙ lookup-erase s.id id w.items,
    )
