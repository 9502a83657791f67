-- ===== src/Service/Connect.antt =====
-- pkg/service/connectionmanager.go, connect and testConn: the events that an attempt to connect sends.
-- What the process and the network do is the record Attempt; `clock` gives the times of the events. The
-- removal of the transport in use before is left out, and so are the log lines.
mod Laws
mod Tests
use alkasir.Base.{
  ℕ, suc, ◌+◌, Bool, true, false, Option, none, some, List, [], ◌∷◌, ◌++◌, Str, codes, str_eq, not,
  if◌then◌else◌,
}
use alkasir.Shared.Connection.{Connection}
use alkasir.Service.Manager.{
  ConnectionState, service_init, service_start, test, up, wrong_protocol, failed, not_configured,
  test_failed, ended, ConnectionEvent, new_state, new_connection_event_history,
}

pub record Attempt : Type 0 where
  -- NewTransportService gives a service
  pub created : Bool
  pub service_id : Str
  -- Start gives no error
  pub starts : Bool
  -- the protocol of the response
  pub protocol : Str
  -- there is a default transport when the test runs, and the test request succeeds
  pub active : Bool
  pub reachable : Bool

module _ (clock : ℕ → ℕ) where
  -- Calls of newState on one event, one after the other; nothing where one panics.
  unfoldable pub send_all :
      ℕ → ConnectionEvent → List ConnectionState → Option (List ConnectionEvent)
  send_all i e [] = some []
  send_all i e (s ∷ ss) =
      let rest = send_all (suc i) e ss in
      elim (new_state (clock i) e s) [
        | none ↦ none
        | some x ↦ elim rest [ none ↦ none | some xs ↦ some (x ∷ xs) ]
      ]

  -- The states that testConn sends, and what it reports as the state of the transport.
  unfoldable pub test_conn :
      ℕ → Bool → Bool → ConnectionEvent → Option (List ConnectionEvent) × List Bool
  test_conn i active reachable e =
      if not active
      then (send_all i e (test_failed ∷ not_configured ∷ ended ∷ []), false ∷ [])
      else if not reachable
      then (send_all i e (test_failed ∷ failed ∷ ended ∷ []), false ∷ [])
      else elim e.state [
        | up ↦ (some [], true ∷ true ∷ [])
        | _ ↦ (send_all i e (up ∷ []), true ∷ true ∷ [])
      ]

  -- The events of connect and of the test that it starts; nothing where the program panics, as it does
  -- on the missing service.
  unfoldable pub connect : Connection → Attempt → Option (List ConnectionEvent)
  connect c a =
      let e = new_connection_event_history (clock 0) c in
      let e' : ConnectionEvent = record e { service_id = a.service_id } in
      let head = send_all 1 e (service_init ∷ service_start ∷ []) in
      let tested =
        if str_eq a.protocol (codes "socks5")
        then test ∷ []
        else wrong_protocol ∷ failed ∷ test ∷ [] in
      if not a.created then none else elim head [
        | none ↦ none
        | some xs ↦
            if not a.starts
            then elim (send_all 3 e' (failed ∷ ended ∷ [])) [
              | none ↦ none
              | some ys ↦ some (e ∷ (xs ++ ys))
            ]
            else elim (send_all 3 e' tested) [
              | none ↦ none
              | some ys ↦ elim (test_conn 6 a.active a.reachable e').0 [
                | none ↦ none
                | some zs ↦ some (e ∷ (xs ++ (ys ++ zs)))
              ]
            ]
      ]
