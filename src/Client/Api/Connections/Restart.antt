-- ===== src/Client/Api/Connections/Restart.antt =====
-- The edited list as service.UpdateConnections and then the connection manager of pkg/service take it.
use mathlib.Core.List.Perm
use mathlib.Core.List.{filter}
use alkasir.Base.{
  ℕ, ◌<◌, ◌≤◌, ◌≡◌, ◌≢◌, sym, false, some, List, [], ◌∷◌, arith, Bool-cases, inl, inr, All,
  List-cases,
}
use alkasir.Shared.Connection.{Connection, Formats}
use alkasir.Service.Enabled.{update_connections, update_connections-perm, Bool-discrete}
use alkasir.Service.Manager.{start, panic}
use alkasir.Client.Api.Connections.{Request, edits}
use alkasir.Client.Api.Connections.Enabled.{enabled_count, KeepsEnabled, edits-enabled}

filter-enabled :
    (cs : List Connection)
    → filter (λ c. Bool-discrete c.disabled false) cs ≡ []
    → enabled_count cs ≡ 0
filter-enabled [] e = omega arith
filter-enabled (c ∷ cs) e = elim (Bool-cases c.disabled) [
  | inl t ↦ ground (arith, t, e, filter-enabled cs)
  | inr t ↦ ground (arith, t, e)
]

-- After any requests none of which puts a disabled connection in the place of another, a list that began
-- with an enabled connection is one the connection manager can be started on: UpdateConnections has a
-- result (no draw is out of range), and the manager does not panic on it.
pub edits-start :
    (intn : ℕ → ℕ → ℕ) (f : Formats) (rs : List Request) (all : List Connection)
    → ((i n : ℕ) → 0 < n → intn i n < n)
    → All (KeepsEnabled f) rs
    → 1 ≤ enabled_count all
    → (res : List Connection) × (update_connections intn (edits f rs all) ≡ some res)
      × (start res ≢ panic)
unfolding start
edits-start intn f rs all below keep h =
    let (res, e, p) = update_connections-perm intn (edits f rs all) below in
    let on = edits-enabled f rs all keep h in
    (
      res,
      e,
      λ stuck. elim (List-cases res) [
        | inl empty ↦
            omega (arith, on, filter-enabled (edits f rs all) (sym (Perm.nil-eq (rw empty at p))))
        | inr (c, cs, more) ↦ cc (rw (more, start) at stuck)
      ],
    )
