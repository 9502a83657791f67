-- ===== src/Client/Updates/Tests.antt =====
-- A checker and its upgrader at a few of their states.
use alkasir.Base.{◌≡◌, ◌↔◌, refl, inl, true, some, [], ◌∷◌, str_eq, codes}
use alkasir.Client.Updates.{
  update_success, waiting, sending, pausing, selecting, forcing, State, tick, force_other,
  connection_up, pause_over, move, run, started, next, new_update_checker, on_up, activate,
  update_now, trigger,
}
use alkasir.Client.Updates.Deadlock.{IsStuck, IsSender, IsStuck-iff, meet-IsStuck}
use alkasir.Client.Updates.Schedule.{schedule, schedule-checks}
use alkasir.Client.Updates.Times.{IsSound, Reach-IsSound}

abbrev idle : State
idle = record {
  active = true;
  checker = waiting;
  forces = 1;
  last_check = 7;
  last_failed_check = 7;
  last_update = 3;
  upgrader = selecting;
  current_country = codes "SE";
}

IsStuck-iff_example :
    IsStuck (record idle { checker = sending; upgrader = forcing })
    ↔ ((sending ≡ sending) × IsSender forcing)
IsStuck-iff_example = IsStuck-iff (record idle { checker = sending; upgrader = forcing })

meet-IsStuck_example : (s' : State) × (run (tick ∷ connection_up ∷ []) idle ≡ some s') × IsStuck s'
meet-IsStuck_example = meet-IsStuck idle refl refl refl

schedule-checks_example :
    (s' : State) × (run
        (schedule (codes "SE") update_success 9 pausing forcing)
        (record idle { checker = pausing; upgrader = forcing })
      ≡ some s')
    × (s'.last_check ≡ 9)
unfolding str_eq
schedule-checks_example =
    schedule-checks (codes "SE") update_success 9
      (record idle { checker = pausing; upgrader = forcing }) refl (inl (λ e. cc e)) refl

-- A connection that comes up.
abbrev first : State
first = record (new_update_checker (codes "SE")) { active = true; upgrader = forcing }

Reach-IsSound_example : IsSound first
unfolding new_update_checker move on_up activate update_now
Reach-IsSound_example = Reach-IsSound first (
    next (new_update_checker (codes "SE")) connection_up (started (codes "SE")) refl
      (λ now e. cc e))

-- A connection that comes up in the pause after an error: the forced request that follows the error is taken
-- before that of the connection.
pause_stuck :
    run
      (connection_up ∷ pause_over ∷ force_other ∷ [])
      (record idle { checker = pausing; forces = 0 })
    ≡ some (record idle { checker = sending; upgrader = forcing; forces = 0 })
unfolding run move on_up activate update_now trigger
pause_stuck = refl
