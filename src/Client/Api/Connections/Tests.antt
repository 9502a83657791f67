-- ===== src/Client/Api/Connections/Tests.antt =====
-- Requests to a list of three connections, the last one of them protected.
use alkasir.Base.{
  ◌-◌, ◌≡◌, ◌≢◌, refl, inl, true, false, some, List, [], ◌∷◌, arith, Str, codes, str_eq,
}
use alkasir.Shared.Connection.{Connection, Formats}
use alkasir.Service.Enabled.{update_connections}
use alkasir.Service.Manager.{start, Outcome}
use alkasir.Client.Api.Connections.{
  forbidden, accepted, Request, toggle, delete, post, edit, edits, delete_connection, find_deleted,
  settled, replies,
}
use alkasir.Client.Api.Connections.Restart.{edits-start}

abbrev conn : Str → Connection
conn id = record {
  transport = codes "obfs4";
  secret = codes "s";
  addr = codes "a";
  disabled = false;
  protected = false;
  id = id;
}

abbrev three : List Connection
three =
    conn (codes "A")
    ∷ record (conn (codes "B")) { disabled = true }
    ∷ record (conn (codes "C")) { protected = true }
    ∷ []

-- Formats that read every text as the connection called D.
abbrev all_one : Formats
all_one = record {
  base64_encode = λ s. s;
  base64_decode = λ s. some s;
  json_encode = λ t k a. t;
  json_decode = λ s. some (conn (codes "D"));
  valid_utf8 = λ s. true;
  hash = λ s. s;
}

abbrev requests : List Request
requests =
    toggle (codes "B")
    ∷ delete (codes "A")
    ∷ delete (codes "C")
    ∷ toggle (codes "C")
    ∷ post (record { id = []; encoded = codes "x" })
    ∷ []

edits-start_example :
    (res : List Connection) × (update_connections (λ i n. n - 1) (edits all_one requests three)
      ≡ some res)
    × (start res ≢ Outcome.panic)
edits-start_example =
    edits-start (λ i n. n - 1) all_one requests three (λ i n h. omega arith)
      (tt, (tt, (tt, (tt, (inl refl, tt))))) (omega arith)

-- A protected connection cannot be deleted; the refusal is followed by `true`.
protected_refused :
    replies (edit all_one (delete (codes "C")) three) ≡ forbidden (codes "C") ∷ accepted ∷ []
unfolding replies edit delete_connection find_deleted settled str_eq
protected_refused = refl
