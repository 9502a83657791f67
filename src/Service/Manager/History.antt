-- ===== src/Service/Manager/History.antt =====
-- The recorded histories, and what the listeners are sent.
use alkasir.Base.{
  ℕ, zero, suc, ◌≤◌, ◌≡◌, refl, ◌≢◌, ◌⊎◌, ◌∙◌, inl, inr, Bool, true, false, Option, none, some,
  List, [], ◌∷◌, ◌++◌, map, arith, Str, length, take, last?, All, ap, All-append, length-append,
  length-take, last?-snoc, Bool-cases, Option-cases, ltb,
}
use alkasir.Base.Dict.{
  lookup, insert, erase, lookup-insert_self, lookup-insert_ne, lookup-insert-cases,
  lookup-erase-some,
}
use alkasir.Shared.Connection.{Connection}
use alkasir.Service.Manager.{
  ConnectionState, ConnectionEvent, ConnectionHistory, ended, Manager, Message, Action, Outcome,
  event, send, continue, shut_down, panic, history_limit, cut, trim, on_reconnect, on_state,
  on_event, on_tick, test_conn, state_is_up, emit, step, start,
}
use alkasir.Service.Manager.Rotation.{on_reconnect_starts}
use alkasir.Service.Manager.Reach.{Reach, started, next}

All-take : {A : Type 0} (P : A → Type 0) (n : ℕ) (xs : List A) → All P xs → All P (take n xs)
All-take P zero xs h = tt
All-take P (suc n) [] h = tt
All-take P (suc n) (x ∷ xs) (p, h) = (p, All-take P n xs h)

-- A history of the connection `id` as the loop keeps it.
abbrev pub IsHistory : Str → List ConnectionEvent → Type 0
IsHistory id h = (1 ≤ length h) × (length h ≤ suc history_limit) × All (λ e. e.connection.id ≡ id) h

cut-length : (n : ℕ) (h : List ConnectionEvent) → length (cut n h) ≤ n
unfolding cut
cut-length n h = ground (arith, length-take n h)

cut-All :
    (P : ConnectionEvent → Type 0) (n : ℕ) (h : List ConnectionEvent) → All P h → All P (cut n h)
unfolding cut
cut-All P n h k = elim (Bool-cases (ltb n (length h))) [
  | inl e ↦ rw e (All-take P n h k)
  | inr e ↦ rw e k
]

trim-length : (o : Option (List ConnectionEvent)) → length (trim o) ≤ history_limit
unfolding trim
trim-length none = omega arith
trim-length (some h) = cut-length history_limit h

trim-All :
    (P : ConnectionEvent → Type 0) (o : Option (List ConnectionEvent))
    → ((h : List ConnectionEvent) → o ≡ some h → All P h)
    → All P (trim o)
unfolding trim
trim-All P none k = tt
trim-All P (some h) k = cut-All P history_limit h (k h refl)

-- What the loop keeps of the connections: every history is a history of its connection, and a
-- current event is the last one recorded and not an ending.
pub record IsValid (m : Manager) : Type 0 where
  pub recorded :
      (id : Str) (h : List ConnectionEvent) → lookup id m.histories ≡ some h → IsHistory id h
  pub newest :
      (id : Str) (e : ConnectionEvent)
      → lookup id m.currents ≡ some e
      → (e.state ≢ ended)
        × (h : List ConnectionEvent) × (lookup id m.histories ≡ some h)
        × (last? h ≡ some e)

-- The history that handling `e` records and sends.
abbrev pub extended : Manager → ConnectionEvent → List ConnectionEvent
extended m e = trim (lookup e.connection.id m.histories) ++ e ∷ []

extended-IsHistory :
    (m : Manager) (e : ConnectionEvent) → IsValid m → IsHistory e.connection.id (extended m e)
extended-IsHistory m e v =
    let id = e.connection.id in
    let old = trim (lookup id m.histories) in
    let grown = length-append old (e ∷ []) in
    let kept = trim-length (lookup id m.histories) in
    (
      omega (arith, grown),
      omega (arith, grown, kept),
      All-append (λ x. x.connection.id ≡ id) old (e ∷ [])
          (trim-All (λ x. x.connection.id ≡ id) (lookup id m.histories)
            (λ h found. (v.recorded id h found).2))
          (refl, tt),
    )

on_state-histories :
    (s : ConnectionState) (id : Str) (m : Manager)
    → ((on_state s id m).0.histories ≡ m.histories) × ((on_state s id m).0.listeners ≡ m.listeners)
unfolding on_state
on_state-histories s id m = ground arith

-- Handling an ending forgets the current event, and nothing else touches them.
on_state-currents :
    (s : ConnectionState) (id : Str) (m : Manager)
    → ((s ≡ ended) × ((on_state s id m).0.currents ≡ erase id m.currents))
      ⊎ ((s ≢ ended) × ((on_state s id m).0.currents ≡ m.currents))
unfolding on_state
on_state-currents s id m = ground arith

-- The manager with an event recorded, before the `switch`; and after it.
abbrev pub noted : Manager → ConnectionEvent → Manager
noted m e = record m {
  histories = insert e.connection.id (extended m e) m.histories;
  currents = insert e.connection.id e m.currents;
}

abbrev pub after : Manager → ConnectionEvent → Manager
after m e = (on_state e.state e.connection.id (noted m e)).0

after-recorded :
    (m : Manager) (e : ConnectionEvent) (v : IsValid m) (id : Str) (h : List ConnectionEvent)
    → lookup id (after m e).histories ≡ some h
    → IsHistory id h
after-recorded m e v id h found =
    let key = e.connection.id in
    let (same, _) = on_state-histories e.state key (noted m e) in
    elim (lookup-insert-cases key id (extended m e) h m.histories (rw same at found)) [
      | inl (k, w) ↦ rw (← k, ← w) (extended-IsHistory m e v)
      | inr (_, old) ↦ v.recorded id h old
    ]

-- What the loop has just put under a key that is still current.
inserted-newest :
    (m : Manager) (e : ConnectionEvent) (v : IsValid m) (id : Str) (x : ConnectionEvent)
    → (e.state ≢ ended) ⊎ (e.connection.id ≢ id)
    → lookup id (insert e.connection.id e m.currents) ≡ some x
    → (x.state ≢ ended)
      × (h : List ConnectionEvent) × (lookup id (insert e.connection.id (extended m e) m.histories)
          ≡ some h)
      × (last? h ≡ some x)
inserted-newest m e v id x live found =
    let key = e.connection.id in
    elim (lookup-insert-cases key id e x m.currents found) [
      | inl (k, w) ↦ (
        elim live [ inl going ↦ rw (← w) going | inr ne ↦ absurd (ne k) ],
        extended m e,
        rw (← k) (lookup-insert_self key (extended m e) m.histories),
        rw (← w) (last?-snoc (trim (lookup key m.histories)) e),
      )
      | inr (ne, old) ↦
          let (going, h, at, end) = v.newest id x old in
          (going, h, lookup-insert_ne key id (extended m e) m.histories ne ∙ at, end)
    ]

after-newest :
    (m : Manager) (e : ConnectionEvent) (v : IsValid m) (id : Str) (x : ConnectionEvent)
    → lookup id (after m e).currents ≡ some x
    → (x.state ≢ ended)
      × (h : List ConnectionEvent) × (lookup id (after m e).histories ≡ some h)
      × (last? h ≡ some x)
after-newest m e v id x found =
    let key = e.connection.id in
    let (same, _) = on_state-histories e.state key (noted m e) in
    rw same (elim (on_state-currents e.state key (noted m e)) [
      | inl (_, gone) ↦
          let (ne, old) = lookup-erase-some key id x (noted m e).currents (rw gone at found) in
          inserted-newest m e v id x (inr ne) old
      | inr (live, kept) ↦ inserted-newest m e v id x (inl live) (rw kept at found)
    ])

after-IsValid : (m : Manager) (e : ConnectionEvent) → IsValid m → IsValid (after m e)
after-IsValid m e v = record { recorded = after-recorded m e v; newest = after-newest m e v }

-- What holds of the state that a round leaves, if it leaves one.
abbrev pub Leaves : (Manager → Type 0) → Outcome → Type 0
Leaves P (continue m acts) = P m
Leaves P shut_down = Unit
Leaves P panic = Unit

-- Only an event touches the records.
same-IsValid :
    (m m' : Manager)
    → m'.histories ≡ m.histories
    → m'.currents ≡ m.currents
    → IsValid m
    → IsValid m'
same-IsValid m m' h c v = record {
  recorded = λ id x found. v.recorded id x (rw h at found);
  newest = λ id e found. rw h (v.newest id e (rw c at found));
}

pub on_tick_same :
    (m : Manager)
    → (running : Bool) × (acts : List Action) × (on_tick m
        ≡ continue (record m { connection_test_running = running }) acts)
unfolding on_tick
on_tick_same m = elim (Bool-cases m.connection_test_running) [
  | inl e ↦ (true, [], ground arith)
  | inr e ↦ elim (Option-cases (lookup m.current_connection_id m.currents)) [
    | inl absent ↦ (false, [], ground arith)
    | inr (conn, found) ↦ elim (Bool-cases (state_is_up conn.state)) [
      | inl at_up ↦ (true, test_conn conn ∷ [], ground arith)
      | inr down ↦ (false, [], ground arith)
    ]
  ]
]

step-Leaves :
    (conns : List Connection) (m : Manager) (msg : Message)
    → IsValid m
    → Leaves IsValid (step conns m msg)
unfolding step on_event
step-Leaves conns m (event e) v = after-IsValid m e v
step-Leaves conns m Message.stop v = tt
step-Leaves conns m (Message.listener l) v = same-IsValid m _ refl refl v
step-Leaves conns m (Message.connection_tested ok) v = same-IsValid m _ refl refl v
step-Leaves [] m Message.reconnect v = unfold on_reconnect in same-IsValid m _ refl refl v
step-Leaves (c ∷ cs) m Message.reconnect v =
    let (conn, _, e) = on_reconnect_starts c cs m in rw e (same-IsValid m _ refl refl v)
step-Leaves conns m Message.reverify_tick v =
    let (_, _, e) = on_tick_same m in rw e (same-IsValid m _ refl refl v)

start-Leaves : (conns : List Connection) → Leaves IsValid (start conns)
unfolding start lookup
start-Leaves [] = tt
start-Leaves (c ∷ _) = record { recorded = λ id h found. cc found; newest = λ id e found. cc found }

-- In every state that the loop reaches, each history holds between one event and twenty-one, all of
-- the connection under whose id it is kept; and the current event of a connection is the last of
-- its history, and never an ending.
pub Reach-IsValid : {m : Manager} → Reach m → IsValid m
Reach-IsValid (started {m = m} conns acts e) = rw e at (start-Leaves conns)
Reach-IsValid (next {m = m} before conns msg acts r e) =
    rw e at (step-Leaves conns before msg (Reach-IsValid r))

-- The histories that a round sends, with the listeners that they are sent to.
abbrev pub sends : List Action → List (ℕ × ConnectionHistory)
sends [] = []
sends (send l h ∷ acts) = (l, h) ∷ sends acts
sends (_ ∷ acts) = sends acts

sends-emit : (ls : List ℕ) (h : ConnectionHistory) → sends (emit ls h) ≡ map (λ l. (l, h)) ls
unfolding emit
sends-emit [] h = refl
sends-emit (l ∷ ls) h = ap (λ r. (l, h) ∷ r) (sends-emit ls h)

on_state-sends :
    (s : ConnectionState) (id : Str) (m : Manager) (rest : List Action)
    → sends ((on_state s id m).1 ++ rest) ≡ sends rest
unfolding on_state
on_state-sends s id m rest = ground arith

-- Handling an event sends one history to each listener, in the order in which they were added: the
-- history that is then on record for the event's connection, which ends in the event itself and
-- has at most twenty-one entries.
pub step-event_sends :
    (conns : List Connection) (m : Manager) (e : ConnectionEvent)
    → (m' : Manager) × (acts : List Action) × (h : List ConnectionEvent) × (step conns m (event e)
        ≡ continue m' acts)
      × (sends acts ≡ map (λ l. (l, record { history = h })) m.listeners)
      × (lookup e.connection.id m'.histories ≡ some h)
      × (last? h ≡ some e)
      × (length h ≤ suc history_limit)
unfolding step on_event
step-event_sends conns m e =
    let id = e.connection.id in
    let old = trim (lookup id m.histories) in
    let (same, heard) = on_state-histories e.state id (noted m e) in
    let sent : ConnectionHistory = record { history = extended m e } in
    (
      after m e,
      (on_state e.state id (noted m e)).1 ++ emit (after m e).listeners sent,
      extended m e,
      refl,
      on_state-sends e.state id (noted m e) (emit (after m e).listeners sent)
          ∙ sends-emit (after m e).listeners sent
          ∙ ap (map (λ l. (l, sent))) heard,
      rw same (lookup-insert_self id (extended m e) m.histories),
      last?-snoc old e,
      omega (arith, length-append old (e ∷ []), trim-length (lookup id m.histories)),
    )
