-- ===== src/Client/Updates/Blocklist.antt =====
-- upgradeBlockList of pkg/client/upgradeblocklist.go, and UpdateBlockedList of pkg/pac/pac.go, which it calls.
-- The week, the random id, what the server answers, whether the settings can be written, and how texts are
-- sorted are arguments. That `reflect.DeepEqual` tells a nil list from an empty one is left out.
pub mod Laws
use alkasir.Base.{
  ℕ, ◌+◌, ◌%◌, Bool, true, false, not, ◌==◌, ◌&&◌, Option, none, some, List, [], ◌∷◌, ◌++◌, Str,
  str_eq, codes, length, if◌then◌else◌,
}
use alkasir.Central.Suggestions.Sending.{Post, Failure, Result, ok, error, received}

-- The settings that are used, the list that the proxy configuration is made of, and the time of its last
-- change.
pub record Local : Type 0 where
  pub last_id : ℕ
  pub central_hosts : List Str
  pub own_hosts : List Str
  pub blocked_list : List Str
  pub last_blocklist_change : ℕ

-- UpdateBlockedList, but for the escapes of JavaScript and the text that joins the hosts.
unfoldable pub update_blocked_list : List Str → List Str → List Str
update_blocked_list central own = codes "alkasir.com" ∷ (central ++ own)

unfoldable pub now_id : ℕ → ℕ
now_id week = week % 3 + 1

-- The id that is sent: none where the one of this week was sent.
unfoldable pub update_id : ℕ → Option Str → ℕ → Str
unfolding now_id
update_id week uuid saved =
    if now_id week == saved
    then []
    else elim uuid [ none ↦ [] | some id ↦ if saved == 0 then codes "0:" ++ id else id ]

unfoldable pub same_hosts : List Str → List Str → Bool
same_hosts [] [] = true
same_hosts [] (_ ∷ _) = false
same_hosts (_ ∷ _) [] = false
same_hosts (x ∷ xs) (y ∷ ys) = str_eq x y && same_hosts xs ys

-- From the comparison of the lists on. The list of the settings is sorted where it is.
unfoldable pub take_hosts : (List Str → List Str) → ℕ → List Str → Local → Local
unfolding same_hosts update_blocked_list
take_hosts sort now hosts s =
    if not (same_hosts (sort hosts) (sort s.central_hosts))
    then record s {
      central_hosts = sort hosts;
      blocked_list = update_blocked_list (sort hosts) s.own_hosts;
      last_blocklist_change = now;
    }
    else record s { central_hosts = sort s.central_hosts }

pub data Upgraded : Type 0 where
  no_client : Upgraded
  failed : Failure → Upgraded
  not_written : Upgraded
  upgraded : ℕ → Upgraded

-- What comes of it, the id that was sent with the request, and the new settings.
unfoldable pub upgrade_block_list :
    (List Str → List Str)
    → Bool
    → Bool
    → ℕ
    → Option Str
    → ℕ
    → Post (List Str)
    → Local
    → Upgraded × Option Str × Local
unfolding take_hosts update_id now_id
upgrade_block_list sort has_client can_write week uuid now answer s =
    let id = update_id week uuid s.last_id in
    if not has_client then (no_client, none, s) else elim (received answer) [
      | error e ↦ (failed e, some id, s)
      | ok hosts ↦
          let s1 = record s { last_id = now_id week } in
          if not (now_id week == s.last_id) && not can_write
          then (not_written, some id, s1)
          else (upgraded (length hosts), some id, take_hosts sort now hosts s1)
    ]
