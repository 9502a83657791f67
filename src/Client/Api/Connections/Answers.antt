-- ===== src/Client/Api/Connections/Answers.antt =====
-- The indices that the handlers search are inside the list.
use alkasir.Base.{
  ℕ, suc, ◌+◌, ◌<◌, ◌≡◌, ◌≢◌, refl, ◌∙◌, inl, inr, ◌⊎◌, true, false, not, ◌&&◌, Option, none, some,
  List, [], ◌∷◌, arith, Str, str_eq, ltb, length, get_elem?_total, if◌then◌else◌, Bool-cases,
  List-cases,
}
use alkasir.Shared.Connection.{Connection, Formats, decode_connection}
use alkasir.Client.Api.Connections.{
  panic, Found, find_toggled, toggle_connection, settled, delete_connection, ConnectionSetting,
  find_id, decoded, invalids, or_first, is_missing, saved, post_connection, Request, toggle, delete,
  post, edit,
}

find_toggled-inside :
    (id : Str) (k : ℕ) (vs : List Connection) (f : Found)
    → ((find_toggled id k vs f).found ≡ f.found)
        × ((find_toggled id k vs f).found_idx ≡ f.found_idx)
      ⊎ ((find_toggled id k vs f).found_idx < k + length vs)
unfolding find_toggled
find_toggled-inside id k [] f = inl (refl, refl)
find_toggled-inside id k (v ∷ vs) f =
    let f1 : Found = record {
      n_enabled = if not v.disabled then f.n_enabled + 1 else f.n_enabled;
      found = if str_eq v.id id then true else f.found;
      found_idx = if str_eq v.id id then k else f.found_idx;
    } in
    elim (find_toggled-inside id (suc k) vs f1) [
      | inr lt ↦ inr (omega (arith, lt))
      | inl (same, idx) ↦ elim (Bool-cases (str_eq v.id id)) [
        | inl t ↦ inr (ground (arith, t, idx))
        | inr t ↦ inl (same ∙ ground (arith, t), idx ∙ ground (arith, t))
      ]
    ]

toggle_connection-answers : (id : Str) (all : List Connection) → toggle_connection id all ≢ panic
unfolding toggle_connection
toggle_connection-answers id all e =
    let start : Found = record { n_enabled = 0; found = false; found_idx = 0 } in
    let f = find_toggled id 0 all start in
    elim (find_toggled-inside id 0 all start) [
      | inl (same, _) ↦ cc (rw (same, toggle_connection) at e)
      | inr lt ↦
          let (c, at) = get_elem?_total all f.found_idx (omega (arith, lt)) in
          elim (Bool-cases f.found) [
            | inr fd ↦ cc (rw (fd, toggle_connection) at e)
            | inl fd ↦ elim (Bool-cases (ltb f.n_enabled 2 && not c.disabled)) [
              | inl few ↦ cc (few, rw (at, toggle_connection) at (rw (fd, toggle_connection) at e))
              | inr enough ↦
                  cc (enough, rw (at, toggle_connection) at (rw (fd, toggle_connection) at e))
            ]
          ]
    ]

delete_connection-answers : (id : Str) (all : List Connection) → delete_connection id all ≢ panic
unfolding delete_connection settled
delete_connection-answers id all e = ground (arith, e)

find_id-inside :
    (id : Str) (k : ℕ) (vs : List Connection) (found : Option ℕ)
    → (find_id id k vs found ≡ found) ⊎ (or_first (find_id id k vs found) < k + length vs)
unfolding find_id
find_id-inside id k [] found = inl refl
find_id-inside id k (v ∷ vs) found = elim (Bool-cases (str_eq v.id id)) [
  | inl t ↦ elim (find_id-inside id (suc k) vs (some k)) [
    | inl same ↦ inr (rw t (rw same (omega arith)))
    | inr lt ↦ inr (rw t (omega (arith, lt)))
  ]
  | inr t ↦ elim (find_id-inside id (suc k) vs found) [
    | inl same ↦ inl (rw t same)
    | inr lt ↦ inr (rw t (omega (arith, lt)))
  ]
]

saved-answers :
    (f : Formats) (form : ConnectionSetting) (c : Connection) (all : List Connection)
    → not (str_eq form.id []) && is_missing (find_id form.id 0 all none) ≡ false
    → saved f form c all ≢ panic
unfolding saved
saved-answers f form c all known e = elim (Bool-cases (str_eq form.id [])) [
  | inl t ↦ cc (rw (t, saved) at e)
  | inr t ↦ elim (find_id-inside form.id 0 all none) [
    | inl same ↦ cc (rw same at (rw t at known))
    | inr lt ↦
        let (d, at) =
          get_elem?_total all (or_first (find_id form.id 0 all none)) (omega (arith, lt)) in
        cc (rw (at, saved) at (rw (t, saved) at e))
  ]
]

-- With nothing found wrong, an id that is given is that of a connection in the list.
invalids-known :
    (f : Formats) (form : ConnectionSetting) (all : List Connection)
    → invalids f form all ≡ []
    → not (str_eq form.id []) && is_missing (find_id form.id 0 all none) ≡ false
unfolding invalids
invalids-known f form all e =
    elim (Bool-cases (not (str_eq form.id []) && is_missing (find_id form.id 0 all none))) [
      | inr k ↦ k
      | inl k ↦ ground (arith, k, e)
    ]

-- No request makes a handler read the list at an index that is outside of it.
pub edit-answers : (f : Formats) (r : Request) (all : List Connection) → edit f r all ≢ panic
unfolding edit post_connection
edit-answers f (toggle id) all e = toggle_connection-answers id all e
edit-answers f (delete id) all e = delete_connection-answers id all e
edit-answers f (post form) all e = elim (List-cases (invalids f form all)) [
  | inl fine ↦
      saved-answers f form (decoded (decode_connection f form.encoded)) all
        (invalids-known f form all fine) (rw (fine, post_connection) at e)
  | inr (x, xs, some_wrong) ↦ cc (rw (some_wrong, post_connection) at e)
]
