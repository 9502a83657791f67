-- ===== src/Client/Updates/Schedule.antt =====
-- How a check comes about, as long as it still can.
use mathlib.Core.Path.{subst}
use alkasir.Base.{
  ℕ, ◌+◌, ◌≡◌, ◌≢◌, refl, sym, ◌⊎◌, inl, inr, true, false, some, str_eq, codes, List, [], ◌∷◌, Str,
  arith,
}
use alkasir.Client.Updates.{
  UpdateResult, update_success, update_error, Checker, waiting, sending, pausing, Upgrader,
  selecting, forcing, working, answering, State, Event, tick, force_self, pause_over, requested,
  upgraded, answered, move, run, trigger, respond, on_request,
}
use alkasir.Client.Updates.Deadlock.{both}

-- The events that bring a check about, by where the two are.
abbrev from_waiting : Str → UpdateResult → ℕ → Upgrader → List Event
from_waiting c r now selecting = tick ∷ requested c ∷ upgraded r ∷ answered now ∷ []
from_waiting c r now forcing = force_self ∷ requested c ∷ upgraded r ∷ answered now ∷ []
from_waiting c r now working = upgraded r ∷ answered now ∷ []
from_waiting c r now (answering _) = answered now ∷ []

abbrev pub schedule : Str → UpdateResult → ℕ → Checker → Upgrader → List Event
schedule c r now waiting u = from_waiting c r now u
schedule c r now pausing u = pause_over ∷ from_waiting c r now u
schedule c r now sending u = requested c ∷ upgraded r ∷ answered now ∷ []

abbrev ready : Checker → Upgrader → State → State
ready c u s = record s { checker = c; upgrader = u; active = true }

abbrev Checks : List Event → ℕ → State → Type 0
Checks es now s = (s' : State) × (run es s ≡ some s') × (s'.last_check ≡ now)

respond-last_check : (r : UpdateResult) (now : ℕ) (s : State) → (respond r now s).last_check ≡ now
unfolding respond
respond-last_check update_success now s = refl
respond-last_check update_error now s = refl

answering-Checks :
    (r : UpdateResult) (now : ℕ) (s : State)
    → Checks (answered now ∷ []) now (both waiting (answering r) s)
unfolding run move
answering-Checks r now s = (
  respond r now (both waiting selecting s),
  refl,
  respond-last_check r now (both waiting selecting s),
)

working-Checks :
    (r : UpdateResult) (now : ℕ) (s : State)
    → Checks (upgraded r ∷ answered now ∷ []) now (both waiting working s)
unfolding run move
working-Checks r now s = answering-Checks r now s

taken_move :
    (c : Str) (s : State)
    → str_eq c (codes "__") ≡ false
    → move (requested c) (both sending selecting s)
      ≡ some (record (both waiting working s) { current_country = c })
unfolding move on_request
taken_move c s e = ground (arith, e)

sending-Checks :
    (c : Str) (r : UpdateResult) (now : ℕ) (s : State)
    → str_eq c (codes "__") ≡ false
    → Checks (requested c ∷ upgraded r ∷ answered now ∷ []) now (both sending selecting s)
unfolding run
sending-Checks c r now s e =
    let (s', goes, same) = working-Checks r now (record s { current_country = c }) in
    (s', rw (taken_move c s e, run) goes, same)

waiting-Checks :
    (c : Str) (r : UpdateResult) (now : ℕ) (u : Upgrader) (s : State)
    → str_eq c (codes "__") ≡ false
    → Checks (from_waiting c r now u) now (ready waiting u s)
unfolding run move trigger
waiting-Checks c r now selecting s e = sending-Checks c r now (ready sending selecting s) e
waiting-Checks c r now forcing s e = sending-Checks c r now (ready sending selecting s) e
waiting-Checks c r now working s e = working-Checks r now (ready waiting working s)
waiting-Checks c r now (answering q) s e = answering-Checks q now (ready waiting (answering q) s)

ready-Checks :
    (c : Str) (r : UpdateResult) (now : ℕ) (k : Checker) (u : Upgrader) (s : State)
    → str_eq c (codes "__") ≡ false
    → (k ≢ sending) ⊎ (u ≡ selecting)
    → Checks (schedule c r now k u) now (ready k u s)
unfolding run move
ready-Checks c r now waiting u s e w = waiting-Checks c r now u s e
ready-Checks c r now pausing u s e w =
    waiting-Checks c r now u (record s { forces = s.forces + 1 }) e
ready-Checks c r now sending selecting s e w = sending-Checks c r now (ready sending selecting s) e
ready-Checks c r now sending forcing s e w = elim w [ inl h ↦ absurd (h refl) | inr h ↦ cc h ]
ready-Checks c r now sending working s e w = elim w [ inl h ↦ absurd (h refl) | inr h ↦ cc h ]
ready-Checks c r now sending (answering q) s e w = elim w [ inl h ↦ absurd (h refl) | inr h ↦ cc h ]

-- With an active checker that is not about to send a request to an upgrader that does not wait for one, and
-- a country that is set, a check can still be made: the schedule above is possible, and its end is recorded
-- as the time of the last check.
pub schedule-checks :
    (c : Str) (r : UpdateResult) (now : ℕ) (s : State)
    → s.active ≡ true
    → (s.checker ≢ sending) ⊎ (s.upgrader ≡ selecting)
    → str_eq c (codes "__") ≡ false
    → (s' : State) × (run (schedule c r now s.checker s.upgrader) s ≡ some s')
      × (s'.last_check ≡ now)
schedule-checks c r now s a w set =
    subst (λ b. Checks (schedule c r now s.checker s.upgrader) now (record s { active = b }))
      (sym a) (ready-Checks c r now s.checker s.upgrader s set w)
