-- ===== src/Task/Manager/Laws.antt =====
-- What the scheduler keeps, and that it serves the ready tasks in turn.
use ch_os.Base.{
  ℕ, zero, suc, ◌≡◌, refl, sym, ap, subst, ◌∙◌, Bool, true, false, ◌||◌, List, [], ◌∷◌, ◌++◌, none,
  some, arith, ◌==◌, if◌then◌else◌, update, contains, Distinct, length,
}
use mathlib.Core.List.{append_assoc, append-nil}
use ch_os.Base.Outcome.{Outcome, done, ◌>>=◌}
use ch_os.Task.Manager.{
  TaskStatus, ready, running, zombie, Scheduler, add_task, fetch_task, take_current_task,
  run_tasks_round, suspend_current_and_run_next, exit_current,
}

abbrev pub is_ready : TaskStatus → Bool
is_ready ready = true
is_ready running = false
is_ready zombie = false

abbrev pub all_ready : (ℕ → TaskStatus) → List ℕ → Bool
all_ready status [] = true
all_ready status (t ∷ ts) = if is_ready (status t) then all_ready status ts else false

-- Each queued task is queued once and is ready; the running task is running and is not queued.
pub record IsValid (s : Scheduler) : Type 0 where
  pub distinct : Distinct s.ready_queue
  pub queued_ready : all_ready s.task_status s.ready_queue ≡ true
  pub current_running : (t : ℕ) → s.current ≡ some t → s.task_status t ≡ running

is_ready-ready : (v : TaskStatus) → is_ready v ≡ true → v ≡ ready
is_ready-ready ready e = refl
is_ready-ready running e = cc
is_ready-ready zombie e = cc

contains-append : (t x : ℕ) (ts : List ℕ) → contains t (ts ++ (x ∷ [])) ≡ (t == x) || contains t ts
contains-append t x [] = ground arith
contains-append t x (y ∷ ts) = ground (arith, contains-append t x ts)

Distinct-append :
    (x : ℕ) (ts : List ℕ) → Distinct ts → contains x ts ≡ false → Distinct (ts ++ (x ∷ []))
Distinct-append x [] d n = ground arith
Distinct-append x (y ∷ ts) d n = ground (arith, contains-append y x ts, Distinct-append x ts)

all_ready-append :
    (status : ℕ → TaskStatus) (x : ℕ) (ts : List ℕ)
    → all_ready status ts ≡ true
    → status x ≡ ready
    → all_ready status (ts ++ (x ∷ [])) ≡ true
all_ready-append status x [] h e = rw e refl
all_ready-append status x (y ∷ ts) h e = ground (arith, all_ready-append status x ts)

all_ready-update :
    (status : ℕ → TaskStatus) (x : ℕ) (v : TaskStatus) (ts : List ℕ)
    → contains x ts ≡ false
    → all_ready status ts ≡ true
    → all_ready (update status x v) ts ≡ true
all_ready-update status x v [] n h = refl
all_ready-update status x v (y ∷ ts) n h = ground (arith, all_ready-update status x v ts)

not_queued :
    (status : ℕ → TaskStatus) (x : ℕ) (ts : List ℕ)
    → all_ready status ts ≡ true
    → is_ready (status x) ≡ false
    → contains x ts ≡ false
not_queued status x [] h e = refl
not_queued status x (y ∷ ts) h e = ground (arith, not_queued status x ts)

fetch_head :
    (s : Scheduler) (t : ℕ) (rest : List ℕ)
    → s.ready_queue ≡ t ∷ rest
    → fetch_task s ≡ (some t, record s { ready_queue = rest })
unfolding fetch_task
fetch_head s t rest more = rw more refl

module _ {s : Scheduler} (v : IsValid s) where
  -- A round of the idle loop, with no task running, takes the task at the head of the queue, which
  -- was ready, and makes it the running one.
  pub run_tasks_round-head :
      (t : ℕ) (rest : List ℕ)
      → s.current ≡ none
      → s.ready_queue ≡ t ∷ rest
      → IsValid (run_tasks_round s)
        × (s.task_status t ≡ ready)
        × ((run_tasks_round s).current ≡ some t)
        × ((run_tasks_round s).ready_queue ≡ rest)
  unfolding run_tasks_round
  run_tasks_round-head t rest idle more =
      let taken : fetch_task s ≡ (some t, record s { ready_queue = rest }) =
        fetch_head s t rest more in
      let all : all_ready s.task_status (t ∷ rest) ≡ true =
        subst (λ q. all_ready s.task_status q ≡ true) more v.queued_ready in
      let once = subst (λ q. Distinct q) more v.distinct in
      let others : all_ready s.task_status rest ≡ true = ground arith in
      rw taken (
        record {
          distinct = once.1;
          queued_ready = all_ready-update s.task_status t running rest (ground arith) others;
          current_running = λ x e. ground arith;
        },
        is_ready-ready (s.task_status t) (ground arith),
        refl,
        refl,
      )

  -- The running task that is suspended becomes ready at the end of the queue, and none runs.
  pub suspend-last :
      (t : ℕ)
      → s.current ≡ some t
      → (s' : Scheduler) × (suspend_current_and_run_next s ≡ done s')
        × IsValid s'
        × (s'.current ≡ none)
        × (s'.ready_queue ≡ s.ready_queue ++ (t ∷ []))
  unfolding suspend_current_and_run_next take_current_task add_task
  suspend-last t on =
      let apart =
        not_queued s.task_status t s.ready_queue v.queued_ready
          (ap is_ready (v.current_running t on)) in
      (
        record s {
          ready_queue = s.ready_queue ++ (t ∷ []);
          current = none;
          task_status = update s.task_status t ready;
        },
        rw on refl,
        record {
          distinct = Distinct-append t s.ready_queue v.distinct apart;
          queued_ready =
              all_ready-append (update s.task_status t ready) t s.ready_queue
                (all_ready-update s.task_status t ready s.ready_queue apart v.queued_ready)
                (ground arith);
          current_running = λ x e. cc;
        },
        refl,
        refl,
      )

  -- In a valid scheduler, a running task that exits is a zombie with its exit code, and is
  -- neither running nor queued; the scheduler stays valid.
  pub exit_current-zombie :
      (t code : ℕ)
      → s.current ≡ some t
      → (s' : Scheduler) × (exit_current code s ≡ done s')
        × IsValid s'
        × (s'.current ≡ none)
        × (s'.task_status t ≡ zombie)
        × (s'.exit_code t ≡ code)
        × (contains t s'.ready_queue ≡ false)
  unfolding exit_current take_current_task
  exit_current-zombie t code on =
      let apart =
        not_queued s.task_status t s.ready_queue v.queued_ready
          (ap is_ready (v.current_running t on)) in
      (
        record s {
          current = none;
          task_status = update s.task_status t zombie;
          exit_code = update s.exit_code t code;
        },
        rw on refl,
        record {
          distinct = v.distinct;
          queued_ready = all_ready-update s.task_status t zombie s.ready_queue apart v.queued_ready;
          current_running = λ x e. cc;
        },
        refl,
        ground arith,
        ground arith,
        apart,
      )

-- A turn: the idle loop runs a task, and the task gives the processor back.
pub turns : ℕ → Scheduler → Outcome Scheduler
turns zero s = done s
turns (suc n) s = do s' ← suspend_current_and_run_next (run_tasks_round s); turns n s'

-- In a valid scheduler in which no task runs, the tasks are served in turn: after as many turns
-- as there are tasks in a first part of the queue, those stand, in their order, behind the
-- others, and the scheduler is valid.
pub round_robin :
    (first later : List ℕ) {s : Scheduler}
    → IsValid s
    → s.current ≡ none
    → s.ready_queue ≡ first ++ later
    → (s' : Scheduler) × (turns (length first) s ≡ done s')
      × IsValid s'
      × (s'.current ≡ none)
      × (s'.ready_queue ≡ later ++ first)
unfolding turns
round_robin [] later {s} v idle e = (s, refl, v, idle, e ∙ sym (append-nil later))
round_robin (t ∷ first) later {s} v idle e =
    let (v₁, was, on, rest) = run_tasks_round-head v t (first ++ later) idle e in
    let (s₂, ends, v₂, idle₂, last) = suspend-last v₁ t on in
    let (s₃, ends₃, v₃, idle₃, served) =
      round_robin first (later ++ (t ∷ [])) v₂ idle₂
        (last ∙ ap (λ q. q ++ (t ∷ [])) rest ∙ append_assoc first later (t ∷ [])) in
    (s₃, rw ends ends₃, v₃, idle₃, served ∙ append_assoc later (t ∷ []) first)
