-- ===== src/Task/Tests.antt =====
-- Runs of the task model at concrete states.
use ch_os.Base.{◌≡◌, refl, [], ◌∷◌, none, arith}
use ch_os.Base.Outcome.{done}
use ch_os.Task.Manager.{ready, Scheduler}
use ch_os.Task.Manager.Laws.{IsValid, turns, round_robin}

-- Tasks 5, 6 and 7 wait, and no task runs.
abbrev waiting : Scheduler
waiting = record {
  ready_queue = 5 ∷ 6 ∷ 7 ∷ [];
  current = none;
  task_status = λ t. ready;
  exit_code = λ t. 0;
}

waiting-IsValid : IsValid waiting
waiting-IsValid = record {
  distinct = ground arith;
  queued_ready = refl;
  current_running = λ t e. cc;
}

round_robin_example :
    (s' : Scheduler) × (turns 2 waiting ≡ done s')
    × IsValid s'
    × (s'.current ≡ none)
    × (s'.ready_queue ≡ 7 ∷ 5 ∷ 6 ∷ [])
round_robin_example = round_robin (5 ∷ 6 ∷ []) (7 ∷ []) waiting-IsValid refl refl
