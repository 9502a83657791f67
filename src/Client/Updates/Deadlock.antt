-- ===== src/Client/Updates/Deadlock.antt =====
-- When the two goroutines wait for each other.
use mathlib.Core.Path.{subst}
use alkasir.Base.{
  ◌≡◌, ◌≢◌, ◌≤◌, length, refl, sym, ◌↔◌, ◌⊎◌, inl, inr, some_inj, ap, true, none, some, List, [],
  ◌∷◌, arith,
}
use alkasir.Client.Updates.{
  UpdateResult, update_success, Checker, waiting, sending, pausing, Upgrader, selecting, forcing,
  working, answering, State, Event, tick, force_self, force_other, connection_up, pause_over,
  country_check, requested, upgraded, answered, move, run, trigger, on_up, activate, update_now,
}

-- No event can happen.
abbrev pub IsStuck : State → Type 0
IsStuck s = (e : Event) → move e s ≡ none

-- The upgrader waits to force a request or to give its answer, and not for a request.
abbrev pub IsSender : Upgrader → Type 0
IsSender selecting = ⊥
IsSender working = ⊥
IsSender forcing = Unit
IsSender (answering _) = Unit

abbrev pub both : Checker → Upgrader → State → State
both c u s = record s { checker = c; upgrader = u }

stuck_both :
    (c : Checker) (u : Upgrader) (s : State) → IsStuck (both c u s) → (c ≡ sending) × IsSender u
unfolding move
stuck_both waiting u s k = cc (k tick)
stuck_both pausing u s k = cc (k pause_over)
stuck_both sending selecting s k = cc (k (requested []))
stuck_both sending working s k = cc (k (upgraded update_success))
stuck_both sending forcing s k = (refl, tt)
stuck_both sending (answering r) s k = (refl, tt)

both_stuck : (u : Upgrader) (s : State) (e : Event) → IsSender u → move e (both sending u s) ≡ none
unfolding move
both_stuck selecting s e h = elim h [ ]
both_stuck working s e h = elim h [ ]
both_stuck forcing s tick h = refl
both_stuck forcing s force_self h = refl
both_stuck forcing s force_other h = refl
both_stuck forcing s connection_up h = refl
both_stuck forcing s pause_over h = refl
both_stuck forcing s (country_check c) h = refl
both_stuck forcing s (requested c) h = refl
both_stuck forcing s (upgraded r) h = refl
both_stuck forcing s (answered now) h = refl
both_stuck (answering q) s tick h = refl
both_stuck (answering q) s force_self h = refl
both_stuck (answering q) s force_other h = refl
both_stuck (answering q) s connection_up h = refl
both_stuck (answering q) s pause_over h = refl
both_stuck (answering q) s (country_check c) h = refl
both_stuck (answering q) s (requested c) h = refl
both_stuck (answering q) s (upgraded r) h = refl
both_stuck (answering q) s (answered now) h = refl

-- Nothing can happen any more exactly where the checker waits to send a request while the upgrader waits to
-- force one or to answer the one before.
pub IsStuck-iff : (s : State) → IsStuck s ↔ ((s.checker ≡ sending) × IsSender s.upgrader)
IsStuck-iff s = (
  λ h. stuck_both s.checker s.upgrader s h,
  λ (c, u) e.
      subst (λ k. move e (both k s.upgrader s) ≡ none) (sym c) (both_stuck s.upgrader s e u),
)

-- No request will be taken any more.
abbrev IsBusy : Upgrader → Type 0
IsBusy selecting = ⊥
IsBusy _ = Unit

working_move :
    (e : Event) (s : State)
    → (move e (both sending working s) ≡ none)
      ⊎ ((r : UpdateResult) × (move e (both sending working s)
            ≡ some (both sending (answering r) s)))
unfolding move
working_move (upgraded r) s = inr (r, refl)
working_move tick s = inl refl
working_move force_self s = inl refl
working_move force_other s = inl refl
working_move connection_up s = inl refl
working_move pause_over s = inl refl
working_move (country_check c) s = inl refl
working_move (requested c) s = inl refl
working_move (answered now) s = inl refl

sender-none :
    (es : List Event) (u : Upgrader) (s s' : State)
    → IsSender u
    → run es (both sending u s) ≡ some s'
    → (length es ≡ 0) × (s' ≡ both sending u s)
unfolding run
sender-none [] u s s' b e = (refl, sym (some_inj e))
sender-none (e ∷ es) u s s' b r = cc (rw (both_stuck u s e b, run) at r)

busy-short :
    (es : List Event) (u : Upgrader) (s s' : State)
    → IsBusy u
    → run es (both sending u s) ≡ some s'
    → (length es ≤ 1) × (s'.last_check ≡ s.last_check)
unfolding run
busy-short [] u s s' b e = (omega arith, ap (λ x. x.last_check) (sym (some_inj e)))
busy-short (e ∷ es) selecting s s' b r = elim b [ ]
busy-short (e ∷ es) forcing s s' b r = cc (rw (both_stuck forcing s e tt, run) at r)
busy-short (e ∷ es) (answering q) s s' b r = cc (rw (both_stuck (answering q) s e tt, run) at r)
busy-short (e ∷ es) working s s' b r = elim (working_move e s) [
  | inl no_move ↦ cc (rw (no_move, run) at r)
  | inr (q, moved) ↦
      let (len, same) = sender-none es (answering q) s s' tt (rw (moved, run) at r) in
      (omega (arith, len), ap (λ x. x.last_check) same)
]

busy : (u : Upgrader) → u ≢ selecting → IsBusy u
busy selecting h = absurd (h refl)
busy forcing h = tt
busy working h = tt
busy (answering _) h = tt

-- The checker is about to send a request: if the upgrader does not wait for one then, at most one more
-- event happens, ever, and no check is recorded any more.
pub sending-short :
    (es : List Event) (s s' : State)
    → s.checker ≡ sending
    → s.upgrader ≢ selecting
    → run es s ≡ some s'
    → (length es ≤ 1) × (s'.last_check ≡ s.last_check)
sending-short es s s' c u r =
    busy-short es s.upgrader s s' (busy s.upgrader u)
      (subst (λ k. run es (both k s.upgrader s) ≡ some s') c r)

abbrev ready : Checker → Upgrader → State → State
ready c u s = record s { checker = c; upgrader = u; active = true }

abbrev Ends : State → Type 0
Ends s = (s' : State) × (run (tick ∷ connection_up ∷ []) s ≡ some s') × IsStuck s'

meet : (s : State) → Ends (ready waiting selecting s)
unfolding run move trigger on_up update_now activate
meet s = (ready sending forcing s, refl, λ e. both_stuck forcing (ready sending forcing s) e tt)

-- From every state in which both are in their `select` and the checker is active, two events are enough for
-- nothing to happen any more: the ticker, and a connection that comes up before the request is taken.
pub meet-IsStuck :
    (s : State)
    → s.active ≡ true
    → s.checker ≡ waiting
    → s.upgrader ≡ selecting
    → (s' : State) × (run (tick ∷ connection_up ∷ []) s ≡ some s') × IsStuck s'
meet-IsStuck s a c u =
    subst (λ b. Ends (record s { active = b })) (sym a)
      (subst (λ k. Ends (record s { active = true; checker = k })) (sym c)
        (subst (λ k. Ends (record s { active = true; checker = waiting; upgrader = k })) (sym u)
          (meet s)))
