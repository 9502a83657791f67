-- ===== src/Client/Api/Connections.antt =====
-- pkg/client/api.go, ToggleConnection, DeleteConnection and PostConnection: edits of the list of
-- connections. A handler that refuses writes its error, and then still answers `true`. Writing the
-- settings file and log lines are left out.
pub mod Enabled
pub mod Protected
pub mod Answers
pub mod Restart
mod Tests
use alkasir.Base.{
  ℕ, suc, ◌+◌, Bool, true, false, Option, none, some, List, [], ◌∷◌, ◌++◌, ltb, Str, str_eq, not,
  ◌&&◌, get_elem?, set, if◌then◌else◌,
}
use alkasir.Shared.Connection.{
  Connection, Formats, bare, Decoded, ok, err, ensure_id, encode, decode_connection,
}

pub data FieldError : Type 0 where
  required invalid_format field_not_found duplicate : FieldError

pub data Reply : Type 0 where
  accepted bad_request : Reply
  not_found forbidden : Str → Reply
  invalid : List FieldError → Reply

-- What the function that is given to clientconfig.Update does: it writes an error, or it stores a new
-- list and passes that on to service.UpdateConnections.
pub data Edit : Type 0 where
  refused : Reply → Edit
  changed : List Connection → Edit
  panic : Edit

-- The variables of the loop of ToggleConnection.
pub record Found : Type 0 where
  pub n_enabled : ℕ
  pub found : Bool
  pub found_idx : ℕ

unfoldable pub find_toggled : Str → ℕ → List Connection → Found → Found
find_toggled id k [] f = f
find_toggled id k (v ∷ vs) f = find_toggled id (suc k) vs (record {
  n_enabled = if not v.disabled then f.n_enabled + 1 else f.n_enabled;
  found = if str_eq v.id id then true else f.found;
  found_idx = if str_eq v.id id then k else f.found_idx;
})

unfoldable pub toggle_connection : Str → List Connection → Edit
toggle_connection id all =
    let f = find_toggled id 0 all (record { n_enabled = 0; found = false; found_idx = 0 }) in
    if not f.found then refused (not_found id) else elim (get_elem? all f.found_idx) [
      | none ↦ panic
      | some c ↦
          if ltb f.n_enabled 2 && not c.disabled
          then refused (forbidden id)
          else changed (set all f.found_idx (record c { disabled = not c.disabled }))
    ]

-- The loop of DeleteConnection: what is left, the number of enabled ones in it, and whether the id was
-- found; nothing where the connection is protected.
pub record Deleted : Type 0 where
  pub result : List Connection
  pub n_enabled : ℕ
  pub found : Bool

unfoldable pub find_deleted : Str → List Connection → Deleted → Option Deleted
find_deleted id [] d = some d
find_deleted id (v ∷ vs) d = elim (str_eq v.id id) [
  | true ↦ elim v.protected [ true ↦ none | false ↦ find_deleted id vs (record d { found = true }) ]
  | false ↦ find_deleted id vs (record d {
    result = d.result ++ v ∷ [];
    n_enabled = if not v.disabled then d.n_enabled + 1 else d.n_enabled;
  })
]

-- What follows the loop.
unfoldable pub settled : Str → Deleted → Edit
settled id d =
    if not d.found
    then refused (not_found id)
    else if ltb d.n_enabled 1
    then refused (forbidden id)
    else changed d.result

unfoldable pub delete_connection : Str → List Connection → Edit
delete_connection id all =
    elim (find_deleted id all (record { result = []; n_enabled = 0; found = false })) [
      | none ↦ refused (forbidden id)
      | some d ↦ settled id d
    ]

-- The fields of ConnectionSetting that a request is read for.
pub record ConnectionSetting : Type 0 where
  pub id : Str
  pub encoded : Str

-- The last place of the id.
unfoldable pub find_id : Str → ℕ → List Connection → Option ℕ → Option ℕ
find_id id k [] found = found
find_id id k (v ∷ vs) found = find_id id (suc k) vs (if str_eq v.id id then some k else found)

pub data Request : Type 0 where
  toggle delete : Str → Request
  post : ConnectionSetting → Request

-- The list that is stored after an edit.
abbrev pub stored : Edit → List Connection → List Connection
stored (changed all') all = all'
stored _ all = all

-- All that is written as an answer.
unfoldable pub replies : Edit → List Reply
replies (refused r) = r ∷ accepted ∷ []
replies (changed _) = accepted ∷ []
replies panic = []

-- The connection, which is the zero value where it cannot be decoded.
unfoldable pub decoded : Decoded → Connection
decoded (ok c) = c
decoded (err _) = bare [] [] []

abbrev pub error_if : Bool → FieldError → List FieldError
error_if true e = e ∷ []
error_if false e = []

abbrev pub is_err : Decoded → Bool
is_err (ok _) = false
is_err (err _) = true

abbrev pub is_missing : Option ℕ → Bool
is_missing none = true
is_missing (some _) = false

abbrev pub or_first : Option ℕ → ℕ
or_first none = 0
or_first (some k) = k

module _ (f : Formats) where
  unfoldable pub is_known : Str → List Connection → Bool
  is_known encoded [] = false
  is_known encoded (v ∷ vs) = if str_eq (encode f v) encoded then true else is_known encoded vs

  unfoldable pub invalids : ConnectionSetting → List Connection → List FieldError
  unfolding decoded is_known
  invalids form all =
      error_if (str_eq form.encoded []) required
      ++ (error_if (is_err (decode_connection f form.encoded)) invalid_format
          ++ (error_if (not (str_eq form.id []) && is_missing (find_id form.id 0 all none))
                field_not_found
              ++ error_if (is_known (encode f (decoded (decode_connection f form.encoded))) all)
                  duplicate))

  -- What PostConnection stores once nothing is wrong with the form.
  unfoldable pub saved : ConnectionSetting → Connection → List Connection → Edit
  saved form connection all =
      if str_eq form.id []
      then changed (all ++ ensure_id f connection ∷ [])
      else elim (get_elem? all (or_first (find_id form.id 0 all none))) [
        | none ↦ panic
        | some _ ↦ changed (set all (or_first (find_id form.id 0 all none)) connection)
      ]

  unfoldable pub post_connection : ConnectionSetting → List Connection → Edit
  unfolding invalids
  post_connection form all = elim (invalids form all) [
    | e ∷ es ↦ refused (invalid (e ∷ es))
    | [] ↦ saved form (decoded (decode_connection f form.encoded)) all
  ]

  unfoldable pub edit : Request → List Connection → Edit
  edit (toggle id) all = toggle_connection id all
  edit (delete id) all = delete_connection id all
  edit (post form) all = post_connection form all

  -- The list after requests that come one after the other.
  unfoldable pub edits : List Request → List Connection → List Connection
  edits [] all = all
  edits (r ∷ rs) all = edits rs (stored (edit r all) all)
