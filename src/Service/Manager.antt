-- ===== src/Service/Manager.antt =====
-- pkg/service/connectionmanager.go, the event loop of StartConnectionManager: its variables are a
-- record, a round of the `select` is a step, and what a round sets off (a goroutine, a timer, a
-- send on a listener's channel, a notification) is a list of actions in program order. The log
-- lines are left out. `currentConnections` is shared with UpdateConnections under a mutex, so a
-- round is given the list as it stands.
pub mod Reach
mod Tests
pub mod History
pub mod Rotation
pub mod Notices
use alkasir.Base.{
  ℕ, ◌+◌, ◌%◌, Bool, true, false, Option, none, some, List, [], ◌∷◌, ◌++◌, ltb, ◌==◌, Str, codes,
  length, get_elem?, take, last?, not, ◌&&◌, if◌then◌else◌,
}
use alkasir.Base.Dict.{Dict, lookup, insert, erase}
use alkasir.Shared.Connection.{Connection}

pub data ConnectionState : Type 0 where
  init service_init service_start test : ConnectionState
  up : ConnectionState
  backoff : ConnectionState
  wrong_protocol failed not_configured test_failed ended : ConnectionState

-- `time` is the clock's reading.
pub record ConnectionEvent : Type 0 where
  pub state : ConnectionState
  pub time : ℕ
  pub connection : Connection
  pub service_id : Str

-- The event that `newState` returns and sends on `connectionEvents`; `none` is its panic.
unfoldable pub new_state : ℕ → ConnectionEvent → ConnectionState → Option ConnectionEvent
new_state now c state = elim c.state [
  | ended ↦ none
  | _ ↦
      some
        (record { state = state; time = now; connection = c.connection; service_id = c.service_id })
]

-- The event that `newConnectionEventhistory` returns and sends.
unfoldable pub new_connection_event_history : ℕ → Connection → ConnectionEvent
new_connection_event_history now connection = record {
  state = init;
  time = now;
  connection = connection;
  service_id = [];
}

pub record ConnectionHistory : Type 0 where
  pub history : List ConnectionEvent

-- `none` is the panic of an index out of range.
unfoldable pub current : ConnectionHistory → Option ConnectionEvent
current c = last? c.history

abbrev state_is_up : ConnectionState → Bool
state_is_up up = true
state_is_up _ = false

unfoldable pub is_up : ConnectionHistory → Option Bool
unfolding current
is_up c = elim (current c) [ none ↦ none | some e ↦ some (state_is_up e.state) ]

pub record Manager : Type 0 where
  pub listeners : List ℕ
  pub histories : Dict (List ConnectionEvent)
  pub currents : Dict ConnectionEvent
  pub current_connection_id : Str
  pub current_conn_idx : ℕ
  pub first_up_no_problems : Bool
  -- whether `reconnectTimer` is set; it is never set to nil again
  pub reconnect_timer : Bool
  pub connection_test_running : Bool

pub data Message : Type 0 where
  stop reconnect : Message
  listener : ℕ → Message
  event : ConnectionEvent → Message
  reverify_tick : Message
  connection_tested : Bool → Message

pub data Notice : Type 0 where
  transport_connected_message transport_error_message transport_retry : Notice

pub data Action : Type 0 where
  connect : Connection → Action
  notify : Notice → Action
  stop_timer after_delay : Action
  send : ℕ → ConnectionHistory → Action
  test_conn : ConnectionEvent → Action

pub data Outcome : Type 0 where
  continue : Manager → List Action → Outcome
  shut_down : Outcome
  panic : Outcome

-- The length up to which a history may grow before it is cut.
abbrev pub history_limit : ℕ
history_limit = 20

unfoldable pub cut : ℕ → List ConnectionEvent → List ConnectionEvent
cut n h = if ltb n (length h) then take n h else h

unfoldable pub trim : Option (List ConnectionEvent) → List ConnectionEvent
trim none = []
trim (some h) = cut history_limit h

unfoldable pub on_reconnect : List Connection → Manager → Outcome
on_reconnect [] m = continue (record m { reconnect_timer = true }) (after_delay ∷ [])
on_reconnect (c ∷ cs) m =
    let idx = (m.current_conn_idx + 1) % length (c ∷ cs) in
    elim (get_elem? (c ∷ cs) idx) [
      | none ↦ panic
      | some conn ↦
          continue (record m { current_conn_idx = idx; current_connection_id = conn.id })
            (connect conn ∷ [])
    ]

-- `switch event.State`: the new state and what is set off.
unfoldable pub on_state : ConnectionState → Str → Manager → Manager × List Action
on_state up id m =
    if m.first_up_no_problems
    then (record m { first_up_no_problems = false }, [])
    else (m, notify transport_connected_message ∷ [])
on_state failed id m =
    (record m { first_up_no_problems = false }, notify transport_error_message ∷ [])
on_state test_failed id m = (record m { first_up_no_problems = false }, notify transport_retry ∷ [])
on_state ended id m = (
  record m { currents = erase id m.currents; reconnect_timer = true },
  if m.reconnect_timer then stop_timer ∷ after_delay ∷ [] else after_delay ∷ [],
)
on_state _ id m = (m, [])

-- `for _, l := range listeners { l <- emitEvent }`
unfoldable pub emit : List ℕ → ConnectionHistory → List Action
emit [] h = []
emit (l ∷ ls) h = send l h ∷ emit ls h

unfoldable pub on_event : ConnectionEvent → Manager → Outcome
unfolding on_state emit trim
on_event e m =
    let id = e.connection.id in
    let history = trim (lookup id m.histories) ++ e ∷ [] in
    let recorded = record m {
      histories = insert id history m.histories;
      currents = insert id e m.currents;
    } in
    let (m', acts) = on_state e.state id recorded in
    continue m' (acts ++ emit m'.listeners (record { history = history }))

unfoldable pub on_tick : Manager → Outcome
on_tick m =
    if m.connection_test_running
    then continue m []
    else elim (lookup m.current_connection_id m.currents) [
      | none ↦ continue m []
      | some conn ↦
          if state_is_up conn.state
          then continue (record m { connection_test_running = true }) (test_conn conn ∷ [])
          else continue m []
    ]

-- One round of the loop.
unfoldable pub step : List Connection → Manager → Message → Outcome
step conns m stop = shut_down
step conns m reconnect = on_reconnect conns m
step conns m (listener l) = continue (record m { listeners = m.listeners ++ l ∷ [] }) []
step conns m (event e) = on_event e m
step conns m reverify_tick = on_tick m
step conns m (connection_tested ok) = continue (record m { connection_test_running = false }) []

-- What precedes the loop: the first connection is tried, which panics where there is none.
unfoldable pub start : List Connection → Outcome
start [] = panic
start (c ∷ _) =
    continue
      (record {
        listeners = [];
        histories = [];
        currents = [];
        current_connection_id = c.id;
        current_conn_idx = 0;
        first_up_no_problems = true;
        reconnect_timer = false;
        connection_test_running = false;
      })
      (connect c ∷ [])
