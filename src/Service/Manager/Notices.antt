-- ===== src/Service/Manager/Notices.antt =====
-- What the user is told: `ui.Notify` is called on states of the connections, but a first success
-- with no trouble before it is kept quiet.
use alkasir.Base.{
  ◌≡◌, refl, ◌∙◌, ap, Bool, true, false, not, ◌||◌, Option, none, some, List, [], ◌∷◌, ◌++◌, ℕ, Str,
  arith, if◌then◌else◌,
}
use mathlib.Core.List.{append-nil}
use alkasir.Shared.Connection.{Connection}
use alkasir.Service.Manager.{
  ConnectionState, up, failed, test_failed, ConnectionEvent, ConnectionHistory, Manager, Message,
  event, Action, Notice, transport_connected_message, transport_error_message, transport_retry,
  notify, Outcome, continue, shut_down, panic, on_reconnect, on_state, emit, on_event, step, start,
}
use alkasir.Service.Manager.Rotation.{on_reconnect_starts}
use alkasir.Service.Manager.History.{extended, noted, after, on_tick_same}

-- The rounds of the loop on a list of messages, each with the connections enabled at that moment;
-- `none` if the loop was shut down on the way.
unfoldable pub run : Manager → List (List Connection × Message) → Option Manager
run m [] = some m
run m ((conns, msg) ∷ rest) = elim (step conns m msg) [ continue m' acts ↦ run m' rest | _ ↦ none ]

-- A state after which a success is worth a notice.
abbrev is_notable : ConnectionState → Bool
is_notable up = true
is_notable failed = true
is_notable test_failed = true
is_notable _ = false

abbrev message_is_notable : Message → Bool
message_is_notable (event e) = is_notable e.state
message_is_notable _ = false

abbrev pub any_notable : List (List Connection × Message) → Bool
any_notable [] = false
any_notable ((_, msg) ∷ rest) = message_is_notable msg || any_notable rest

abbrev pub notices : List Action → List Notice
notices [] = []
notices (notify n ∷ acts) = n ∷ notices acts
notices (_ ∷ acts) = notices acts

abbrev pub notices_of : Outcome → List Notice
notices_of (continue m acts) = notices acts
notices_of _ = []

on_state-first_up :
    (s : ConnectionState) (id : Str) (m : Manager)
    → (on_state s id m).0.first_up_no_problems
      ≡ (if is_notable s then false else m.first_up_no_problems)
unfolding on_state
on_state-first_up s id m = ground arith

-- The flag falls with the first notable event, and stays down.
abbrev FlagAfter : Bool → Outcome → Type 0
FlagAfter b (continue m acts) = m.first_up_no_problems ≡ b
FlagAfter b _ = Unit

step-flag :
    (conns : List Connection) (m : Manager) (msg : Message)
    → FlagAfter
        (if message_is_notable msg then false else m.first_up_no_problems)
        (step conns m msg)
unfolding step on_event
step-flag conns m (event e) = on_state-first_up e.state e.connection.id _
step-flag conns m Message.stop = tt
step-flag conns m (Message.listener l) = refl
step-flag conns m (Message.connection_tested ok) = refl
step-flag [] m Message.reconnect = unfold on_reconnect in refl
step-flag (c ∷ cs) m Message.reconnect = let (_, _, e) = on_reconnect_starts c cs m in rw e refl
step-flag conns m Message.reverify_tick = let (_, _, e) = on_tick_same m in rw e refl

run-flag :
    (m m' : Manager) (msgs : List (List Connection × Message))
    → run m msgs ≡ some m'
    → m'.first_up_no_problems ≡ (if any_notable msgs then false else m.first_up_no_problems)
unfolding run
run-flag m m' [] e = ground arith
run-flag m m' ((conns, msg) ∷ rest) e =
    later (step conns m msg) (step-flag conns m msg) e (λ k. run-flag k m' rest)
  where
    later :
        (o : Outcome)
        → FlagAfter (if message_is_notable msg then false else m.first_up_no_problems) o
        → elim o [ continue k acts ↦ run k rest | _ ↦ none ] ≡ some m'
        → ((k : Manager)
            → run k rest ≡ some m'
            → m'.first_up_no_problems
              ≡ (if any_notable rest then false else k.first_up_no_problems))
        → m'.first_up_no_problems
          ≡ (if message_is_notable msg || any_notable rest then false else m.first_up_no_problems)
    later (continue k acts) f h ih = ground (arith, ih k h)
    later shut_down f h ih = cc
    later panic f h ih = cc

notices-emit : (ls : List ℕ) (h : ConnectionHistory) → notices (emit ls h) ≡ []
unfolding emit
notices-emit [] h = refl
notices-emit (l ∷ ls) h = notices-emit ls h

-- The notices that a state should give: a success is only announced once something was wrong or
-- once it is not the first.
abbrev pub told : Bool → ConnectionState → List Notice
told quiet up = if quiet then [] else transport_connected_message ∷ []
told quiet failed = transport_error_message ∷ []
told quiet test_failed = transport_retry ∷ []
told quiet _ = []

on_state-notices :
    (s : ConnectionState) (id : Str) (m : Manager) (rest : List Action)
    → notices ((on_state s id m).1 ++ rest) ≡ told m.first_up_no_problems s ++ notices rest
unfolding on_state
on_state-notices s id m rest = ground arith

start-flag : (conns : List Connection) → FlagAfter true (start conns)
unfolding start
start-flag [] = tt
start-flag (_ ∷ _) = refl

started_flag :
    (conns : List Connection) (m : Manager) (acts : List Action)
    → start conns ≡ continue m acts
    → m.first_up_no_problems ≡ true
started_flag conns m acts e = rw e at (start-flag conns)

-- After any rounds on any messages, the next event gives exactly the notices of its state, where a
-- success is kept quiet if and only if no event so far was a success, a failure or a failed test.
pub event-notices :
    (conns now : List Connection) (first m : Manager) (acts : List Action)
    (msgs : List (List Connection × Message)) (e : ConnectionEvent)
    → start conns ≡ continue first acts
    → run first msgs ≡ some m
    → notices_of (step now m (event e)) ≡ told (not (any_notable msgs)) e.state
unfolding step on_event
event-notices conns now first m acts msgs e s r =
    let id = e.connection.id in
    let sent : ConnectionHistory = record { history = extended m e } in
    let out = emit (after m e).listeners sent in
    let flag : m.first_up_no_problems ≡ not (any_notable msgs) =
      ground (arith, run-flag first m msgs r, started_flag conns first acts s) in
    on_state-notices e.state id (noted m e) out
    ∙ ap (λ r. told m.first_up_no_problems e.state ++ r) (notices-emit (after m e).listeners sent)
    ∙ append-nil (told m.first_up_no_problems e.state)
    ∙ ap (λ b. told b e.state) flag
