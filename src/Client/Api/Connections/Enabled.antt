-- ===== src/Client/Api/Connections/Enabled.antt =====
-- One connection stays enabled, whatever is asked for.
use mathlib.Core.List.{append_assoc, append-nil}
use alkasir.Base.{
  ℕ, zero, suc, ◌+◌, ◌≤◌, ◌≡◌, sym, ◌∙◌, ap, inl, inr, ◌⊎◌, true, false, none, some, List, [], ◌∷◌,
  ◌++◌, arith, Str, str_eq, str_eq_iff, not, get_elem?, set, if◌then◌else◌, Option-cases,
  Bool-cases, some_inj, All, List-cases,
}
use alkasir.Shared.Connection.{Connection, Formats, decode_connection, ensure_id}
use alkasir.Client.Api.Connections.{
  Found, find_toggled, toggle_connection, Deleted, find_deleted, delete_connection, settled,
  ConnectionSetting, find_id, decoded, invalids, or_first, post_connection, Request, toggle, delete,
  post, edit, edits, stored, saved,
}

abbrev pub one_if_enabled : Connection → ℕ
one_if_enabled c = if c.disabled then 0 else 1

abbrev pub enabled_count : List Connection → ℕ
enabled_count [] = 0
enabled_count (c ∷ cs) = one_if_enabled c + enabled_count cs

-- The connections with another id.
abbrev pub others : Str → List Connection → List Connection
others id [] = []
others id (c ∷ cs) = let rest = others id cs in if str_eq c.id id then rest else c ∷ rest

enabled_count-append :
    (xs ys : List Connection) → enabled_count (xs ++ ys) ≡ enabled_count xs + enabled_count ys
enabled_count-append [] ys = omega arith
enabled_count-append (x ∷ xs) ys = omega (arith, enabled_count-append xs ys)

enabled_count-set :
    (cs : List Connection) (i : ℕ) (c d : Connection)
    → get_elem? cs i ≡ some c
    → enabled_count (set cs i d) + one_if_enabled c ≡ enabled_count cs + one_if_enabled d
enabled_count-set [] i c d e = cc
enabled_count-set (x ∷ cs) zero c d e = ground arith
enabled_count-set (x ∷ cs) (suc i) c d e = omega (arith, enabled_count-set cs i c d e)

find_toggled-count :
    (id : Str) (k : ℕ) (vs : List Connection) (f : Found)
    → (find_toggled id k vs f).n_enabled ≡ f.n_enabled + enabled_count vs
unfolding find_toggled
find_toggled-count id k [] f = omega arith
find_toggled-count id k (v ∷ vs) f =
    let f1 : Found = record {
      n_enabled = if not v.disabled then f.n_enabled + 1 else f.n_enabled;
      found = if str_eq v.id id then true else f.found;
      found_idx = if str_eq v.id id then k else f.found_idx;
    } in
    ground (arith, find_toggled-count id (suc k) vs f1)

toggle_connection-enabled :
    (id : Str) (all : List Connection)
    → 1 ≤ enabled_count all
    → 1 ≤ enabled_count (stored (toggle_connection id all) all)
unfolding toggle_connection
toggle_connection-enabled id all h =
    let start : Found = record { n_enabled = 0; found = false; found_idx = 0 } in
    let f = find_toggled id 0 all start in
    let n : f.n_enabled ≡ 0 + enabled_count all = find_toggled-count id 0 all start in
    elim (Bool-cases f.found) [
      | inl fd ↦ elim (Option-cases (get_elem? all f.found_idx)) [
        | inl e ↦ rw (fd, e) h
        | inr (c, e) ↦
            rw (fd, e)
              (ground (
                arith,
                n,
                h,
                enabled_count-set all f.found_idx c (record c { disabled = not c.disabled }) e,
              ))
      ]
      | inr fd ↦ rw fd h
    ]

pub find_deleted-result :
    (id : Str) (vs : List Connection) (d d' : Deleted)
    → find_deleted id vs d ≡ some d'
    → (d'.result ≡ d.result ++ others id vs)
      × (d'.n_enabled ≡ d.n_enabled + enabled_count (others id vs))
unfolding find_deleted
find_deleted-result id [] d d' e =
    let same : d ≡ d' = some_inj e in
    (
      sym (ap (λ x. x.result) same) ∙ sym (append-nil d.result),
      sym (ap (λ x. x.n_enabled) same) ∙ omega arith,
    )
find_deleted-result id (v ∷ vs) d d' e =
    let d1 : Deleted = record d { found = true } in
    let d2 : Deleted = record d {
      result = d.result ++ v ∷ [];
      n_enabled = if not v.disabled then d.n_enabled + 1 else d.n_enabled;
    } in
    elim (Bool-cases (str_eq v.id id)) [
      | inl t ↦ elim (Bool-cases v.protected) [
        | inl p ↦ cc (t, p, e)
        | inr p ↦
            rw t (
              find_deleted-result id vs d1 d' (rw (p, find_deleted) at (rw (t, find_deleted) at e)))
      ]
      | inr t ↦
          let (r, n) = find_deleted-result id vs d2 d' (rw (t, find_deleted) at e) in
          rw t (r ∙ append_assoc d.result (v ∷ []) (others id vs), ground (arith, n))
    ]

delete_connection-enabled :
    (id : Str) (all : List Connection)
    → 1 ≤ enabled_count all
    → 1 ≤ enabled_count (stored (delete_connection id all) all)
unfolding delete_connection settled
delete_connection-enabled id all h =
    let start : Deleted = record { result = []; n_enabled = 0; found = false } in
    elim (Option-cases (find_deleted id all start)) [
      | inl e ↦ rw (e, delete_connection) h
      | inr (d, e) ↦
          let (r, n) = find_deleted-result id all start d e in
          rw (e, delete_connection) (ground (arith, h, n, ap enabled_count r))
    ]

-- A request that does not put a disabled connection in the place of another.
abbrev pub KeepsEnabled : Formats → Request → Type 0
KeepsEnabled f (toggle _) = Unit
KeepsEnabled f (delete _) = Unit
KeepsEnabled f (post form) =
    (form.id ≡ []) ⊎ ((decoded (decode_connection f form.encoded)).disabled ≡ false)

saved-enabled :
    (f : Formats) (form : ConnectionSetting) (c : Connection) (all : List Connection)
    → (form.id ≡ []) ⊎ (c.disabled ≡ false)
    → 1 ≤ enabled_count all
    → 1 ≤ enabled_count (stored (saved f form c all) all)
unfolding saved
saved-enabled f form c all k h =
    let i : ℕ = or_first (find_id form.id 0 all none) in
    elim (Bool-cases (str_eq form.id [])) [
      | inl t ↦ rw (t, saved) (ground (arith, h, enabled_count-append all (ensure_id f c ∷ [])))
      | inr t ↦ elim (Option-cases (get_elem? all i)) [
        | inl e ↦ rw (t, saved) (rw (e, saved) h)
        | inr (d, e) ↦
            rw (t, saved)
              (rw (e, saved)
                (elim k [
                  | inl empty ↦ cc (t, (str_eq_iff form.id []).1 empty)
                  | inr on ↦ ground (arith, on, h, enabled_count-set all i d c e)
                ]))
      ]
    ]

post_connection-enabled :
    (f : Formats) (form : ConnectionSetting) (all : List Connection)
    → KeepsEnabled f (post form)
    → 1 ≤ enabled_count all
    → 1 ≤ enabled_count (stored (post_connection f form all) all)
unfolding post_connection
post_connection-enabled f form all k h = elim (List-cases (invalids f form all)) [
  | inl e ↦
      rw (e, post_connection)
        (saved-enabled f form (decoded (decode_connection f form.encoded)) all k h)
  | inr (x, xs, e) ↦ rw (e, post_connection) h
]

edit-enabled :
    (f : Formats) (r : Request) (all : List Connection)
    → KeepsEnabled f r
    → 1 ≤ enabled_count all
    → 1 ≤ enabled_count (stored (edit f r all) all)
unfolding edit
edit-enabled f (toggle id) all k h = toggle_connection-enabled id all h
edit-enabled f (delete id) all k h = delete_connection-enabled id all h
edit-enabled f (post form) all k h = post_connection-enabled f form all k h

-- Whatever requests come, as long as none puts a disabled connection in the place of another: a list with
-- an enabled connection has one after all of them.
pub edits-enabled :
    (f : Formats) (rs : List Request) (all : List Connection)
    → All (KeepsEnabled f) rs
    → 1 ≤ enabled_count all
    → 1 ≤ enabled_count (edits f rs all)
unfolding edits
edits-enabled f [] all k h = h
edits-enabled f (r ∷ rs) all (k, ks) h =
    edits-enabled f rs (stored (edit f r all) all) ks (edit-enabled f r all k h)
