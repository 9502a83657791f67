-- ===== src/Service/Connect/Laws.antt =====
-- How an attempt to connect ends.
use mathlib.Core.List.{append-nil}
use alkasir.Base.{
  ℕ, ◌≡◌, refl, inl, inr, Bool, true, false, none, some, List, [], ◌∷◌, ◌++◌, arith, Str, codes,
  str_eq, ◌∙◌, ap, ◌&&◌, last?, All, if◌then◌else◌, Bool-cases,
}
use alkasir.Base.Dict.{lookup, insert, erase, lookup-insert_self, lookup-erase_self}
use alkasir.Shared.Connection.{Connection}
use alkasir.Service.Manager.{
  ConnectionState, up, ended, ConnectionEvent, new_state, new_connection_event_history, Manager,
  step, event, continue, on_event, on_state, Action, after_delay, stop_timer, notify, send, trim,
  emit, ConnectionHistory,
}
use alkasir.Service.Connect.{Attempt, send_all, test_conn, connect}

-- Whether the attempt ends well.
abbrev pub succeeds : Attempt → Bool
succeeds a = a.starts && a.active && a.reachable

-- If the transport service can be made, the attempt does not panic, every event is of the connection,
-- and the last one is up if the service starts, there is an active transport and the test succeeds, and is an
-- ending if not.
pub connect_lem :
    (clock : ℕ → ℕ) (c : Connection) (a : Attempt)
    → a.created ≡ true
    → (es : List ConnectionEvent) × (connect clock c a ≡ some es)
      × All (λ e. e.connection ≡ c) es
      × (l : ConnectionEvent) × (last? es ≡ some l)
      × (l.state ≡ (if succeeds a then up else ended))
unfolding connect send_all test_conn new_state new_connection_event_history
connect_lem clock c a h = elim (Bool-cases a.starts) [
  | inr stuck ↦ rw (h, stuck, connect) (_, refl, ground arith, _, refl, refl)
  | inl runs ↦ elim (Bool-cases (str_eq a.protocol (codes "socks5"))) [
    | inl right ↦ elim (Bool-cases a.active) [
      | inr idle ↦
          rw (h, runs, right, idle, connect, test_conn) (_, refl, ground arith, _, refl, refl)
      | inl active ↦ elim (Bool-cases a.reachable) [
        | inr dead ↦
            rw (h, runs, right, active, dead, connect, test_conn)
              (_, refl, ground arith, _, refl, refl)
        | inl alive ↦
            rw (h, runs, right, active, alive, connect, test_conn)
              (_, refl, ground arith, _, refl, refl)
      ]
    ]
    | inr wrong ↦ elim (Bool-cases a.active) [
      | inr idle ↦
          rw (h, runs, wrong, idle, connect, test_conn) (_, refl, ground arith, _, refl, refl)
      | inl active ↦ elim (Bool-cases a.reachable) [
        | inr dead ↦
            rw (h, runs, wrong, active, dead, connect, test_conn)
              (_, refl, ground arith, _, refl, refl)
        | inl alive ↦
            rw (h, runs, wrong, active, alive, connect, test_conn)
              (_, refl, ground arith, _, refl, refl)
      ]
    ]
  ]
]

abbrev pub is_ended : ConnectionState → Bool
is_ended ended = true
is_ended _ = false

-- The manager after it has handled the events, one round for each, and what that sets off.
abbrev pub deliver : List Connection → List ConnectionEvent → Manager → Manager × List Action
deliver conns [] m = (m, [])
deliver conns (e ∷ es) m = elim (step conns m (event e)) [
  | continue m' acts ↦ let (end, later) = deliver conns es m' in (end, acts ++ later)
  | _ ↦ (m, [])
]

-- Whether a timer for a reconnect runs after the actions, given whether one ran before them.
abbrev pub timer_runs : Bool → List Action → Bool
timer_runs b [] = b
timer_runs b (after_delay ∷ acts) = timer_runs true acts
timer_runs b (stop_timer ∷ acts) = timer_runs false acts
timer_runs b (_ ∷ acts) = timer_runs b acts

timer_runs-append :
    (b : Bool) (xs ys : List Action) → timer_runs b (xs ++ ys) ≡ timer_runs (timer_runs b xs) ys
timer_runs-append b [] ys = refl
timer_runs-append b (after_delay ∷ xs) ys = timer_runs-append true xs ys
timer_runs-append b (stop_timer ∷ xs) ys = timer_runs-append false xs ys
timer_runs-append b (Action.connect c ∷ xs) ys = timer_runs-append b xs ys
timer_runs-append b (notify n ∷ xs) ys = timer_runs-append b xs ys
timer_runs-append b (send l h ∷ xs) ys = timer_runs-append b xs ys
timer_runs-append b (Action.test_conn e ∷ xs) ys = timer_runs-append b xs ys

timer_runs-emit : (b : Bool) (ls : List ℕ) (h : ConnectionHistory) → timer_runs b (emit ls h) ≡ b
unfolding emit
timer_runs-emit b [] h = refl
timer_runs-emit b (l ∷ ls) h = timer_runs-emit b ls h

-- What one event leaves of its connection.
abbrev Settled : ConnectionEvent → Manager × List Action → Type 0
Settled e (m, acts) =
    (lookup e.connection.id m.currents ≡ (if is_ended e.state then none else some e))
    × (is_ended e.state ≡ true → (b : Bool) → timer_runs b acts ≡ true)

on_state-currents :
    (s : ConnectionState) (id : Str) (m : Manager)
    → (on_state s id m).0.currents ≡ (if is_ended s then erase id m.currents else m.currents)
unfolding on_state
on_state-currents s id m = ground arith

-- The end of a connection leaves a timer that runs, whether or not one ran before.
on_state-timer : (id : Str) (m : Manager) (b : Bool) → timer_runs b (on_state ended id m).1 ≡ true
unfolding on_state
on_state-timer id m b = elim (Bool-cases m.reconnect_timer) [
  | inl on ↦ rw on refl
  | inr off ↦ rw off refl
]

is_ended-ended : (s : ConnectionState) → is_ended s ≡ true → s ≡ ended
is_ended-ended s h = ground (arith, h)

on_event-Settled :
    (e : ConnectionEvent) (m : Manager)
    → (m' : Manager) × (acts : List Action) × (on_event e m ≡ continue m' acts)
      × Settled e (m', acts)
unfolding on_event
on_event-Settled e m =
    let id = e.connection.id in
    let history = trim (lookup id m.histories) ++ e ∷ [] in
    let recorded : Manager = record m {
      histories = insert id history m.histories;
      currents = insert id e m.currents;
    } in
    let (m', acts) = on_state e.state id recorded in
    let sent = emit m'.listeners (record { history = history }) in
    (
      _,
      _,
      refl,
      (
        ap (lookup id) (on_state-currents e.state id recorded) ∙ found,
        λ over b.
            timer_runs-append b acts sent
            ∙ timer_runs-emit (timer_runs b acts) m'.listeners (record { history = history })
            ∙ timed recorded b over,
      ),
    )
  where
    found :
        lookup e.connection.id (
          if is_ended e.state
          then erase e.connection.id (insert e.connection.id e m.currents)
          else insert e.connection.id e m.currents)
        ≡ (if is_ended e.state then none else some e)
    found = elim (Bool-cases (is_ended e.state)) [
      | inl over ↦ rw over (lookup-erase_self e.connection.id (insert e.connection.id e m.currents))
      | inr going ↦ rw going (lookup-insert_self e.connection.id e m.currents)
    ]

    timed :
        (n : Manager) (b : Bool)
        → is_ended e.state ≡ true
        → timer_runs b (on_state e.state e.connection.id n).1 ≡ true
    timed n b over = rw (is_ended-ended e.state over) (on_state-timer e.connection.id n b)

deliver_one :
    (conns : List Connection) (e : ConnectionEvent) (es : List ConnectionEvent) (m m' : Manager)
    (acts : List Action)
    → on_event e m ≡ continue m' acts
    → deliver conns (e ∷ es) m ≡ ((deliver conns es m').0, acts ++ (deliver conns es m').1)
unfolding step
deliver_one conns e es m m' acts h = rw (h, deliver) refl

-- What comes before does not matter.
Settled-after :
    (e : ConnectionEvent) (m : Manager) (acts later : List Action)
    → Settled e (m, later)
    → Settled e (m, acts ++ later)
Settled-after e m acts later (found, timed) =
    (found, λ over b. timer_runs-append b acts later ∙ timed over (timer_runs b acts))

deliver-Settled :
    (conns : List Connection) (es : List ConnectionEvent) (l : ConnectionEvent) (m : Manager)
    → last? es ≡ some l
    → Settled l (deliver conns es m)
deliver-Settled conns [] l m e = cc
deliver-Settled conns (x ∷ []) l m e =
    let same : x ≡ l = ground arith in
    let (m', acts, h, v) = on_event-Settled l m in
    rw same (rw (deliver_one conns l [] m m' acts h) (rw (append-nil acts) v))
deliver-Settled conns (x ∷ y ∷ es) l m e =
    let (m', acts, h, v) = on_event-Settled x m in
    let rest = deliver conns (y ∷ es) m' in
    rw (deliver_one conns x (y ∷ es) m m' acts h)
      (Settled-after l rest.0 acts rest.1 (deliver-Settled conns (y ∷ es) l m' e))

last-All :
    {c : Connection} (es : List ConnectionEvent) (l : ConnectionEvent)
    → All (λ e. e.connection ≡ c) es
    → last? es ≡ some l
    → l.connection ≡ c
last-All [] l v e = cc
last-All (x ∷ []) l v e = ground arith
last-All (x ∷ y ∷ es) l v e = last-All (y ∷ es) l v.1 e

-- If the transport service can be made and the manager handles all events of the attempt, in its order
-- and with none of others between, then the connection is the current one of its id in the state up, if
-- the attempt succeeds; and if not, it has no current event, and what the manager has set off leaves a timer
-- for a reconnect that runs, whether or not one ran before.
pub connect_settles :
    (clock : ℕ → ℕ) (c : Connection) (a : Attempt) (conns : List Connection) (m : Manager)
    → a.created ≡ true
    → (es : List ConnectionEvent) × (l : ConnectionEvent) × (connect clock c a ≡ some es)
      × (l.connection ≡ c)
      × (l.state ≡ (if succeeds a then up else ended))
      × (lookup c.id (deliver conns es m).0.currents ≡ (if succeeds a then some l else none))
      × (succeeds a ≡ false → (b : Bool) → timer_runs b (deliver conns es m).1 ≡ true)
connect_settles clock c a conns m h =
    let (es, made, ours, l, final, state) = connect_lem clock c a h in
    let (current, timed) = deliver-Settled conns es l m final in
    let mine = last-All es l ours final in
    let named : l.connection.id ≡ c.id = ap (λ x. x.id) mine in
    elim (Bool-cases (succeeds a)) [
      | inl well ↦ (es, l, made, mine, state, ground arith, λ badly. cc (well, badly))
      | inr badly ↦
          (es, l, made, mine, state, ground arith, λ _. timed (ground (arith, badly, state)))
    ]
