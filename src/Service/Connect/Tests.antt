-- ===== src/Service/Connect/Tests.antt =====
-- An attempt whose test fails, after the start of the manager.
use alkasir.Base.{
  ℕ, ◌+◌, ◌≡◌, refl, true, false, Bool, Option, none, some, List, [], ◌∷◌, codes, str_eq, map,
  if◌then◌else◌,
}
use alkasir.Base.Dict.{lookup}
use alkasir.Shared.Connection.{Connection}
use alkasir.Service.Manager.{
  ConnectionState, init, service_init, service_start, test, test_failed, failed, ended, up,
  ConnectionEvent, Manager, new_state, new_connection_event_history,
}
use alkasir.Service.Connect.{Attempt, send_all, test_conn, connect}
use alkasir.Service.Connect.Laws.{succeeds, deliver, timer_runs, connect_settles}

abbrev clock : ℕ → ℕ
clock i = 100 + i

abbrev conn : Connection
conn = record {
  transport = codes "obfs4";
  secret = codes "s";
  addr = codes "192.0.2.1:443";
  disabled = false;
  protected = false;
  id = codes "c";
}

abbrev dead : Attempt
dead = record {
  created = true;
  service_id = codes "service-1";
  starts = true;
  protocol = codes "socks5";
  active = true;
  reachable = false;
}

abbrev states : Option (List ConnectionEvent) → List ConnectionState
states none = []
states (some es) = map (λ e. e.state) es

connect-dead :
    states (connect clock conn dead)
    ≡ init ∷ service_init ∷ service_start ∷ test ∷ test_failed ∷ failed ∷ ended ∷ []
unfolding connect send_all test_conn new_state new_connection_event_history str_eq
connect-dead = refl

abbrev manager : Manager
manager = record {
  listeners = [];
  histories = [];
  currents = [];
  current_connection_id = codes "c";
  current_conn_idx = 0;
  first_up_no_problems = true;
  reconnect_timer = false;
  connection_test_running = false;
}

connect_settles_example :
    (es : List ConnectionEvent) × (l : ConnectionEvent) × (connect clock conn dead ≡ some es)
    × (l.connection ≡ conn)
    × (l.state ≡ (if succeeds dead then up else ended))
    × (lookup (codes "c") (deliver [] es manager).0.currents
        ≡ (if succeeds dead then some l else none))
    × (succeeds dead ≡ false → (b : Bool) → timer_runs b (deliver [] es manager).1 ≡ true)
connect_settles_example = connect_settles clock conn dead [] manager refl
