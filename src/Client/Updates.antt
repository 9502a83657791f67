-- ===== src/Client/Updates.antt =====
-- pkg/client/updatechecker.go and StartBlocklistUpgrader of pkg/client/upgradeblocklist.go: two goroutines
-- that meet on channels without a buffer, so that each send and its receive is one event, and a sender is
-- blocked till then. A time is a number, 0 the zero time. Log lines and notices are left out.
pub mod Deadlock
pub mod Schedule
pub mod Times
pub mod Blocklist
mod Tests
use alkasir.Base.{
  ℕ, zero, suc, ◌+◌, ◌≤◌, ◌≡◌, Bool, true, false, not, Option, none, some, List, [], ◌∷◌, Str,
  str_eq, codes, if◌then◌else◌,
}

pub data UpdateResult : Type 0 where
  update_error update_success : UpdateResult

-- Where the goroutine of NewUpdateChecker stands: in its `select`, at `c.RequestC <- …`, or in the pause
-- after an error.
pub data Checker : Type 0 where
  waiting sending pausing : Checker

-- Where StartBlocklistUpgrader stands: in its `select`, in UpdateNow at `u.forceRequestC <- true`, in
-- upgradeBlockList, or at `request.ResponseC <- …`.
pub data Upgrader : Type 0 where
  selecting forcing working : Upgrader
  answering : UpdateResult → Upgrader

-- `forces` counts the goroutines that are started after an error and wait at `c.forceRequestC <- true`.
pub record State : Type 0 where
  pub active : Bool
  pub checker : Checker
  pub forces : ℕ
  pub last_check : ℕ
  pub last_failed_check : ℕ
  pub last_update : ℕ
  pub upgrader : Upgrader
  pub current_country : Str

unfoldable pub new_update_checker : Str → State
new_update_checker country = record {
  active = false;
  checker = waiting;
  forces = 0;
  last_check = 0;
  last_failed_check = 0;
  last_update = 0;
  upgrader = selecting;
  current_country = country;
}

-- The cases of the two requests to check: nothing happens where the checker is not active.
unfoldable pub trigger : State → State
trigger s = if not s.active then record s { checker = waiting } else record s { checker = sending }

-- The case of a response.
unfoldable pub respond : UpdateResult → ℕ → State → State
respond update_success now s = record s {
  checker = waiting;
  last_check = now;
  last_update = now;
  last_failed_check = 0;
}
respond update_error now s = record s {
  checker = pausing;
  last_check = now;
  last_failed_check = now;
}

unfoldable pub activate : State → State
activate s = record s { active = true }

-- UpdateNow, called by the upgrader: it blocks at the send, or returns its error, which is not looked at.
unfoldable pub update_now : State → State
update_now s =
    if s.active then record s { upgrader = forcing } else record s { upgrader = selecting }

unfoldable pub on_up : State → State
unfolding update_now activate
on_up s = update_now (activate s)

unfoldable pub on_country : Str → State → State
unfolding update_now
on_country country s =
    if not (str_eq s.current_country country)
    then update_now (record s { current_country = country })
    else s

-- A request comes in, with the country of the settings.
unfoldable pub on_request : Str → State → State
on_request country s =
    if str_eq country (codes "__")
    then record s { upgrader = selecting }
    else record s { upgrader = working; current_country = country }

-- `force_self` is a forced request from the upgrader's own UpdateNow, `force_other` one from a goroutine
-- started after an error; `answered` has the time it is answered at.
pub data Event : Type 0 where
  tick force_self force_other connection_up pause_over : Event
  country_check requested : Str → Event
  upgraded : UpdateResult → Event
  answered : ℕ → Event

-- What an event makes of the state; `none` where it cannot happen.
unfoldable pub move : Event → State → Option State
unfolding trigger respond on_up on_country on_request
move tick s = elim s.checker [ waiting ↦ some (trigger s) | _ ↦ none ]
move force_self s = elim s.checker [
  | waiting ↦ elim s.upgrader [
    | forcing ↦ some (trigger (record s { upgrader = selecting }))
    | _ ↦ none
  ]
  | _ ↦ none
]
move force_other s = elim s.checker [
  | waiting ↦ elim s.forces [ zero ↦ none | suc n ↦ some (trigger (record s { forces = n })) ]
  | _ ↦ none
]
move connection_up s = elim s.upgrader [ selecting ↦ some (on_up s) | _ ↦ none ]
move pause_over s = elim s.checker [
  | pausing ↦ some (record s { checker = waiting; forces = s.forces + 1 })
  | _ ↦ none
]
move (country_check c) s = elim s.upgrader [ selecting ↦ some (on_country c s) | _ ↦ none ]
move (requested c) s = elim s.checker [
  | sending ↦ elim s.upgrader [
    | selecting ↦ some (on_request c (record s { checker = waiting }))
    | _ ↦ none
  ]
  | _ ↦ none
]
move (upgraded r) s = elim s.upgrader [
  | working ↦ some (record s { upgrader = answering r })
  | _ ↦ none
]
move (answered now) s = elim s.checker [
  | waiting ↦ elim s.upgrader [
    | answering r ↦ some (respond r now (record s { upgrader = selecting }))
    | _ ↦ none
  ]
  | _ ↦ none
]

-- Events one after the other.
unfoldable pub run : List Event → State → Option State
run [] s = some s
run (e ∷ es) s = elim (move e s) [ none ↦ none | some s' ↦ run es s' ]

-- The states that can come about, with a clock that does not run backwards.
pub data Reach : State → Type 0 where
  started : (c : Str) → Reach (new_update_checker c)
  next :
      {s' : State} (s : State) (e : Event)
      → Reach s
      → move e s ≡ some s'
      → ((now : ℕ) → e ≡ answered now → s.last_check ≤ now)
      → Reach s'
