-- ===== src/Client/Updates/Times.antt =====
-- What the times of an update checker say of its checks.
use alkasir.Base.{
  ℕ, zero, suc, ◌≤◌, ◌≡◌, refl, inl, inr, ◌⊎◌, Bool, true, false, Option, none, some, Str, str_eq,
  codes, arith, Bool-cases,
}
use alkasir.Client.Updates.{
  UpdateResult, update_success, update_error, Checker, waiting, sending, pausing, Upgrader,
  selecting, forcing, working, answering, State, Event, tick, force_self, force_other,
  connection_up, pause_over, country_check, requested, upgraded, answered, move, Reach, started,
  next, trigger, respond, on_country, on_request, activate, update_now, new_update_checker,
}

-- The last check either failed or updated, an earlier failure is forgotten by an update, and who sends or
-- forces a request found the checker active.
abbrev pub IsSound : State → Type 0
IsSound s =
    (s.last_update ≤ s.last_check)
    × ((s.last_failed_check ≡ s.last_check)
        ⊎ (s.last_failed_check ≡ 0) × (s.last_update ≡ s.last_check))
    × (s.checker ≡ sending → s.active ≡ true)
    × (s.upgrader ≡ forcing → s.active ≡ true)

abbrev AfterSome : Option State → Type 0
AfterSome none = Unit
AfterSome (some s) = IsSound s

trigger-IsSound :
    (b : Bool) (s : State)
    → IsSound (record s { active = b })
    → IsSound (trigger (record s { active = b }))
unfolding trigger
trigger-IsSound true s (t, f, a, b) = (t, f, λ _. refl, b)
trigger-IsSound false s (t, f, a, b) = (t, f, λ e. cc e, b)

update_now-IsSound :
    (b : Bool) (s : State)
    → IsSound (record s { active = b })
    → IsSound (update_now (record s { active = b }))
unfolding update_now
update_now-IsSound true s (t, f, a, b) = (t, f, a, λ _. refl)
update_now-IsSound false s (t, f, a, b) = (t, f, a, λ e. cc e)

activate-IsSound : (s : State) → IsSound s → IsSound (activate s)
unfolding activate
activate-IsSound s (t, f, a, b) = (t, f, λ _. refl, λ _. refl)

respond-IsSound :
    (r : UpdateResult) (now : ℕ) (s : State)
    → s.last_update ≤ now
    → s.upgrader ≡ selecting
    → IsSound (respond r now s)
unfolding respond
respond-IsSound update_success now s le u =
    (omega arith, inr (refl, refl), λ e. cc e, λ e. cc (e, u))
respond-IsSound update_error now s le u = (le, inl refl, λ e. cc e, λ e. cc (e, u))

on_country-IsSound : (c : Str) (s : State) → IsSound s → IsSound (on_country c s)
unfolding on_country
on_country-IsSound c s h = elim (Bool-cases (str_eq s.current_country c)) [
  | inl same ↦ rw (same, on_country) h
  | inr new ↦
      rw (new, on_country) (update_now-IsSound s.active (record s { current_country = c }) h)
]

on_request-IsSound :
    (c : Str) (s : State) → s.checker ≡ waiting → IsSound s → IsSound (on_request c s)
unfolding on_request
on_request-IsSound c s w (t, f, a, b) = elim (Bool-cases (str_eq c (codes "__"))) [
  | inl unset ↦ rw (unset, on_request) (t, f, a, λ e. cc e)
  | inr set ↦ rw (set, on_request) (t, f, a, λ e. cc e)
]

-- The clock does not run backwards.
abbrev IsTimely : Event → State → Type 0
IsTimely e s = (now : ℕ) → e ≡ answered now → s.last_check ≤ now

force_other-IsSound :
    (n : ℕ) (s : State)
    → IsSound (record s { forces = n })
    → AfterSome (move force_other (record s { forces = n; checker = waiting }))
unfolding move
force_other-IsSound zero s h = tt
force_other-IsSound (suc n) s (l, f, a, b) =
    trigger-IsSound s.active (record s { forces = n; checker = waiting }) (l, f, λ e. cc e, b)

tick-IsSound :
    (c : Checker) (u : Upgrader) (s : State)
    → IsSound (record s { checker = c; upgrader = u })
    → AfterSome (move tick (record s { checker = c; upgrader = u }))
unfolding move
tick-IsSound waiting u s h =
    trigger-IsSound s.active (record s { checker = waiting; upgrader = u }) h
tick-IsSound sending u s h = tt
tick-IsSound pausing u s h = tt

force_self-IsSound :
    (c : Checker) (u : Upgrader) (s : State)
    → IsSound (record s { checker = c; upgrader = u })
    → AfterSome (move force_self (record s { checker = c; upgrader = u }))
unfolding move
force_self-IsSound waiting forcing s (l, f, a, b) =
    trigger-IsSound s.active (record s { checker = waiting; upgrader = selecting })
      (l, f, a, λ e. cc e)
force_self-IsSound waiting selecting s h = tt
force_self-IsSound waiting working s h = tt
force_self-IsSound waiting (answering _) s h = tt
force_self-IsSound sending u s h = tt
force_self-IsSound pausing u s h = tt

force_other_move-IsSound :
    (c : Checker) (u : Upgrader) (s : State)
    → IsSound (record s { checker = c; upgrader = u })
    → AfterSome (move force_other (record s { checker = c; upgrader = u }))
unfolding move
force_other_move-IsSound waiting u s h =
    force_other-IsSound s.forces (record s { checker = waiting; upgrader = u }) h
force_other_move-IsSound sending u s h = tt
force_other_move-IsSound pausing u s h = tt

connection_up-IsSound :
    (c : Checker) (u : Upgrader) (s : State)
    → IsSound (record s { checker = c; upgrader = u })
    → AfterSome (move connection_up (record s { checker = c; upgrader = u }))
unfolding move
connection_up-IsSound c selecting s h =
    update_now-IsSound true (record s { checker = c; upgrader = selecting })
      (activate-IsSound (record s { checker = c; upgrader = selecting }) h)
connection_up-IsSound c forcing s h = tt
connection_up-IsSound c working s h = tt
connection_up-IsSound c (answering _) s h = tt

pause_over-IsSound :
    (c : Checker) (u : Upgrader) (s : State)
    → IsSound (record s { checker = c; upgrader = u })
    → AfterSome (move pause_over (record s { checker = c; upgrader = u }))
unfolding move
pause_over-IsSound pausing u s (l, f, a, b) = (l, f, λ e. cc e, b)
pause_over-IsSound waiting u s h = tt
pause_over-IsSound sending u s h = tt

country_check-IsSound :
    (x : Str) (c : Checker) (u : Upgrader) (s : State)
    → IsSound (record s { checker = c; upgrader = u })
    → AfterSome (move (country_check x) (record s { checker = c; upgrader = u }))
unfolding move
country_check-IsSound x c selecting s h =
    on_country-IsSound x (record s { checker = c; upgrader = selecting }) h
country_check-IsSound x c forcing s h = tt
country_check-IsSound x c working s h = tt
country_check-IsSound x c (answering _) s h = tt

requested-IsSound :
    (x : Str) (c : Checker) (u : Upgrader) (s : State)
    → IsSound (record s { checker = c; upgrader = u })
    → AfterSome (move (requested x) (record s { checker = c; upgrader = u }))
unfolding move
requested-IsSound x sending selecting s (l, f, a, b) =
    on_request-IsSound x (record s { checker = waiting; upgrader = selecting }) refl
      (l, f, λ e. cc e, b)
requested-IsSound x sending forcing s h = tt
requested-IsSound x sending working s h = tt
requested-IsSound x sending (answering _) s h = tt
requested-IsSound x waiting u s h = tt
requested-IsSound x pausing u s h = tt

upgraded-IsSound :
    (r : UpdateResult) (c : Checker) (u : Upgrader) (s : State)
    → IsSound (record s { checker = c; upgrader = u })
    → AfterSome (move (upgraded r) (record s { checker = c; upgrader = u }))
unfolding move
upgraded-IsSound r c working s (l, f, a, b) = (l, f, a, λ e. cc e)
upgraded-IsSound r c selecting s h = tt
upgraded-IsSound r c forcing s h = tt
upgraded-IsSound r c (answering _) s h = tt

answered-IsSound :
    (now : ℕ) (c : Checker) (u : Upgrader) (s : State)
    → IsTimely (answered now) s
    → IsSound (record s { checker = c; upgrader = u })
    → AfterSome (move (answered now) (record s { checker = c; upgrader = u }))
unfolding move
answered-IsSound now waiting (answering r) s t (l, f, a, b) =
    respond-IsSound r now (record s { checker = waiting; upgrader = selecting })
      (omega (arith, t now refl, l)) refl
answered-IsSound now waiting selecting s t h = tt
answered-IsSound now waiting forcing s t h = tt
answered-IsSound now waiting working s t h = tt
answered-IsSound now sending u s t h = tt
answered-IsSound now pausing u s t h = tt

move-IsSound :
    (e : Event) (c : Checker) (u : Upgrader) (s : State)
    → IsTimely e s
    → IsSound (record s { checker = c; upgrader = u })
    → AfterSome (move e (record s { checker = c; upgrader = u }))
move-IsSound tick c u s t h = tick-IsSound c u s h
move-IsSound force_self c u s t h = force_self-IsSound c u s h
move-IsSound force_other c u s t h = force_other_move-IsSound c u s h
move-IsSound connection_up c u s t h = connection_up-IsSound c u s h
move-IsSound pause_over c u s t h = pause_over-IsSound c u s h
move-IsSound (country_check x) c u s t h = country_check-IsSound x c u s h
move-IsSound (requested x) c u s t h = requested-IsSound x c u s h
move-IsSound (upgraded r) c u s t h = upgraded-IsSound r c u s h
move-IsSound (answered now) c u s t h = answered-IsSound now c u s t h

-- In every state that can come about: the last check either failed, or updated and left no failure behind,
-- no update is later than the last check, and who sends or forces a request found the checker active.
pub Reach-IsSound : (s : State) → Reach s → IsSound s
unfolding new_update_checker
Reach-IsSound s (started c) = (omega arith, inl refl, λ e. cc e, λ e. cc e)
Reach-IsSound s (next before e r goes timely) =
    rw goes at
      (move-IsSound e before.checker before.upgrader before timely (Reach-IsSound before r))
