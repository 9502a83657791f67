-- ===== src/Service/Manager/Reach.antt =====
-- The states that the event loop can reach: after `start`, by rounds on any messages, with any list
-- of enabled connections at each round.
use alkasir.Base.{◌≡◌, List}
use alkasir.Shared.Connection.{Connection}
use alkasir.Service.Manager.{Manager, Message, Action, continue, step, start}

pub data Reach : Manager → Type 0 where
  started :
      {m : Manager} (conns : List Connection) (acts : List Action)
      → start conns ≡ continue m acts
      → Reach m
  next :
      {m : Manager} (before : Manager) (conns : List Connection) (msg : Message)
      (acts : List Action)
      → Reach before
      → step conns before msg ≡ continue m acts
      → Reach m
