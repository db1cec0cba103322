-- ===== src/Task/Manager.antt =====
-- os/src/task/manager.rs and processor.rs, with the switches of os/src/task/mod.rs: the ready queue,
-- the running task and the status of each. A task is a number; its status stands in a function of
-- it, since the clones of an `Arc` share one control block. The saved contexts are left out: a switch
-- back to the idle loop ends a step.
pub mod Laws
use ch_os.Base.{ℕ, ◌+◌, ◌≡◌, List, [], ◌∷◌, ◌++◌, Option, none, some, ◌==◌, if◌then◌else◌, update}
use ch_os.Base.Outcome.{Outcome, done, panic, unwrap, ◌>>=◌, ◌>>◌}

pub data TaskStatus : Type 0 where
  ready running zombie : TaskStatus

-- `TASK_MANAGER`, `PROCESSOR` and the control blocks.
pub record Scheduler : Type 0 where
  pub ready_queue : List ℕ
  pub current : Option ℕ
  pub task_status : ℕ → TaskStatus
  pub exit_code : ℕ → ℕ

-- `TaskManager::add` and `fetch`
unfoldable pub add_task : ℕ → Scheduler → Scheduler
add_task t s = record s { ready_queue = s.ready_queue ++ (t ∷ []) }

pub fetch_task : Scheduler → Option ℕ × Scheduler
fetch_task s = elim s.ready_queue [
  | [] ↦ (none, s)
  | t ∷ rest ↦ (some t, record s { ready_queue = rest })
]

-- `Processor::take_current`
unfoldable pub take_current_task : Scheduler → Option ℕ × Scheduler
take_current_task s = (s.current, record s { current = none })

-- The branches of the loop of `run_tasks`, up to the switch to the task.
abbrev pub dispatch : Option ℕ × Scheduler → Scheduler
dispatch (none, s) = s
dispatch (some t, s) = record s { task_status = update s.task_status t running; current = some t }

-- One round of that loop.
pub run_tasks_round : Scheduler → Scheduler
run_tasks_round s = dispatch (fetch_task s)

-- Up to the switch back to the idle loop.
pub suspend_current_and_run_next : Scheduler → Outcome Scheduler
suspend_current_and_run_next s = do
  let (o, s') = take_current_task s
  t ← unwrap o
  done (add_task t (record s' { task_status = update s'.task_status t ready }))

-- The part of `exit_current_and_run_next` that the scheduler sees: children and memory are left out.
pub exit_current : ℕ → Scheduler → Outcome Scheduler
exit_current code s = do
  let (o, s') = take_current_task s
  t ← unwrap o
  done (record s' {
    task_status = update s'.task_status t zombie;
    exit_code = update s'.exit_code t code;
  })
