-- ===== src/Service/Manager/Tests.antt =====
-- The event loop on two connections.
use mathlib.Core.List.{Memᴰ}
use alkasir.Base.{◌≡◌, refl, true, false, List, [], ◌∷◌, arith, Str, codes}
use alkasir.Base.Dict.{lookup, insert}
use alkasir.Shared.Connection.{Connection}
use alkasir.Service.Manager.{
  ConnectionState, up, ConnectionEvent, Manager, event, connect, transport_connected_message,
  continue, on_state, emit, on_event, step, start,
}
use alkasir.Service.Manager.Reach.{started, next}
use alkasir.Service.Manager.History.{IsValid, Reach-IsValid}
use alkasir.Service.Manager.Rotation.{reconnects, reconnects_try_all}
use alkasir.Service.Manager.Notices.{run, notices_of, event-notices}

abbrev conn : Str → Connection
conn id = record {
  transport = codes "obfs4";
  secret = codes "s";
  addr = codes "a";
  disabled = false;
  protected = false;
  id = id;
}

abbrev two : List Connection
two = conn (codes "A") ∷ conn (codes "B") ∷ []

abbrev at : ConnectionState → ConnectionEvent
at s = record { state = s; time = 0; connection = conn (codes "A"); service_id = [] }

abbrev idle : Manager
idle = record {
  listeners = [];
  histories = [];
  currents = [];
  current_connection_id = codes "A";
  current_conn_idx = 0;
  first_up_no_problems = true;
  reconnect_timer = false;
  connection_test_running = false;
}

idle_starts : start two ≡ continue idle (connect (conn (codes "A")) ∷ [])
unfolding start
idle_starts = refl

abbrev upped : Manager
upped = record idle {
  histories = (codes "A", at up ∷ []) ∷ [];
  currents = (codes "A", at up) ∷ [];
  first_up_no_problems = false;
}

first_up : step two idle (event (at up)) ≡ continue upped []
unfolding step on_event on_state emit lookup insert
first_up = refl

Reach-IsValid_example : IsValid upped
Reach-IsValid_example =
    Reach-IsValid (next idle two (event (at up)) [] (started two _ idle_starts) first_up)

reconnects_try_all_example : Memᴰ (connect (conn (codes "B"))) (reconnects 2 two idle)
reconnects_try_all_example =
    reconnects_try_all (conn (codes "A")) (conn (codes "B") ∷ []) idle 1 (conn (codes "B"))
      (omega arith) refl

event-notices_example :
    notices_of (step two upped (event (at up))) ≡ transport_connected_message ∷ []
unfolding run step on_event on_state emit lookup insert start
event-notices_example =
    event-notices two two idle upped (connect (conn (codes "A")) ∷ []) ((two, event (at up)) ∷ [])
      (at up) refl refl
