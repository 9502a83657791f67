-- ===== src/Client/Api/Connections/Protected.antt =====
-- What DeleteConnection leaves of the list.
use alkasir.Base.{
  ◌+◌, ◌≤◌, ◌≡◌, refl, sym, ◌∙◌, ap, inl, inr, true, false, not, some, List, [], ◌∷◌, ◌++◌, arith,
  Str, str_eq, ltb, if◌then◌else◌, Option-cases, Bool-cases,
}
use alkasir.Shared.Connection.{Connection}
use alkasir.Client.Api.Connections.{
  changed, Deleted, find_deleted, settled, stored, delete_connection,
}
use alkasir.Client.Api.Connections.Enabled.{enabled_count, others, find_deleted-result}

-- The protected connections, in their order.
abbrev pub shielded : List Connection → List Connection
shielded [] = []
shielded (c ∷ cs) = let rest = shielded cs in if c.protected then c ∷ rest else rest

find_deleted-shielded :
    (id : Str) (vs : List Connection) (d d' : Deleted)
    → find_deleted id vs d ≡ some d'
    → shielded (others id vs) ≡ shielded vs
unfolding find_deleted
find_deleted-shielded id [] d d' e = refl
find_deleted-shielded id (v ∷ vs) d d' e =
    let d1 : Deleted = record d { found = true } in
    let d2 : Deleted = record d {
      result = d.result ++ v ∷ [];
      n_enabled = if not v.disabled then d.n_enabled + 1 else d.n_enabled;
    } in
    elim (Bool-cases (str_eq v.id id)) [
      | inl t ↦ elim (Bool-cases v.protected) [
        | inl p ↦ cc (t, p, e)
        | inr p ↦
            let ih =
              find_deleted-shielded id vs d1 d'
                (rw (p, find_deleted) at (rw (t, find_deleted) at e)) in
            rw t (rw p ih)
      ]
      | inr t ↦
          let ih = find_deleted-shielded id vs d2 d' (rw (t, find_deleted) at e) in
          rw t (ground (arith, ih))
    ]

split_changed :
    (d : Deleted) (id : Str) (all' : List Connection)
    → settled id d ≡ changed all'
    → (d.result ≡ all') × (1 ≤ d.n_enabled)
unfolding settled
split_changed d id all' e = elim (Bool-cases d.found) [
  | inr fd ↦ cc (fd, e)
  | inl fd ↦ elim (Bool-cases (ltb d.n_enabled 1)) [
    | inl few ↦ cc (fd, few, e)
    | inr enough ↦
        let same : changed d.result ≡ changed all' =
          rw (enough, settled) at (rw (fd, settled) at e) in
        (ap (λ x. stored x []) same, ground (arith, enough))
  ]
]

-- DeleteConnection stores exactly the connections with another id, in their order; the protected ones are
-- all among them, and one of them is enabled.
pub delete_connection-keeps :
    (id : Str) (all all' : List Connection)
    → delete_connection id all ≡ changed all'
    → (all' ≡ others id all) × (shielded all' ≡ shielded all) × (1 ≤ enabled_count all')
unfolding delete_connection
delete_connection-keeps id all all' e =
    let start : Deleted = record { result = []; n_enabled = 0; found = false } in
    elim (Option-cases (find_deleted id all start)) [
      | inl n ↦ cc (n, e)
      | inr (d, s) ↦
          let (r, n) = find_deleted-result id all start d s in
          let p = find_deleted-shielded id all start d s in
          let (same, some_on) = split_changed d id all' (rw (s, delete_connection) at e) in
          (
            sym same ∙ r,
            ap shielded (sym same ∙ r) ∙ p,
            rw (← same) (omega (arith, some_on, n, ap enabled_count r)),
          )
    ]
