-- ===== src/Task/Kernel/Trap.antt =====
-- os/src/syscall/mod.rs and `trap_handler` of os/src/trap/mod.rs, with `sys_waitpid` and `sys_exit`
-- on the whole kernel. What a process does after it was switched away is `resume`.
pub mod Waitpid
use ch_os.Base.{
  ℕ, zero, suc, ◌+◌, ◌-◌, ◌%◌, ◌^◌, Bool, true, false, not, List, [], ◌∷◌, Option, none, some, ◌==◌,
  if◌then◌else◌, update,
}
use ch_os.Base.Bits.{add_usize}
use ch_os.Base.Outcome.{Outcome, done, panic, assert, ◌>>=◌, ◌>>◌}
use ch_os.Memory.PageTable.{write_word}
use ch_os.Memory.UserString.{write_refmut}
use ch_os.Syscall.Wait.{Child, any_match, take_zombie}
use ch_os.Task.Manager.{TaskStatus, zombie, suspend_current_and_run_next}
use ch_os.Task.Kernel.{Platform, Kernel, cx_a0, cx_sepc}
use ch_os.Task.Kernel.Process.{drop_block, exit_current_and_run_next}
use ch_os.Task.Kernel.Calls.{
  Outside, minus_one, current_task, user_table, sys_open, sys_close, sys_read, sys_write, sys_yield,
  sys_getpid, sys_fork, sys_exec,
}

-- `Arc::strong_count` of a block: the handles in the ready queue, at the processor, in the lists of
-- children, and in `INITPROC`.
unfoldable pub occurrences : ℕ → List ℕ → ℕ
occurrences b [] = 0
occurrences b (c ∷ cs) = (if c == b then 1 else 0) + occurrences b cs

unfoldable pub in_children : ℕ → ℕ → Kernel → ℕ
unfolding occurrences
in_children b zero k = 0
in_children b (suc n) k = occurrences b (k.blocks n).children + in_children b n k

unfoldable pub strong_count : Outside → Kernel → ℕ → ℕ
unfolding occurrences in_children
strong_count out k b =
    let running_here : ℕ = elim k.scheduler.current [
      | none ↦ 0
      | some t ↦ if t == b then 1 else 0
    ] in
    let of_initproc = if b == out.initproc then 1 else 0 in
    occurrences b k.scheduler.ready_queue
    + running_here
    + in_children b k.next_block k
    + of_initproc

abbrev is_zombie : TaskStatus → Bool
is_zombie zombie = true
is_zombie _ = false

unfoldable pub child_views : Outside → Kernel → List ℕ → List Child
unfolding strong_count
child_views out k [] = []
child_views out k (b ∷ bs) =
    record {
      block = b;
      pid = (k.blocks b).pid;
      zombie = is_zombie (k.scheduler.task_status b);
      exit_code = k.scheduler.exit_code b;
      strong_count = strong_count out k b;
    }
    ∷ child_views out k bs

unfoldable pub child_blocks : List Child → List ℕ
child_blocks [] = []
child_blocks (c ∷ cs) = c.block ∷ child_blocks cs

-- `sys_waitpid` from the search for a zombie on; -2 is `minus_one - 1`.
unfoldable pub reap : Option (Child × List Child) → ℕ → ℕ → Kernel → Outcome (ℕ × Kernel)
unfolding child_blocks
reap none t exit_code_ptr k = done (minus_one - 1, k)
reap (some (child, rest)) t exit_code_ptr k = do
  assert (child.strong_count == 1)
  let block = k.blocks t
  let blocks' = update k.blocks t (record block { children = child_blocks rest })
  words' ← write_refmut k.machine.words (user_table k t) exit_code_ptr child.exit_code
  let m = k.machine
  k' ← drop_block child.block (record k { blocks = blocks'; machine = record m { words = words' } })
  done (child.pid, k')

unfoldable pub sys_waitpid : Outside → ℕ → ℕ → Kernel → Outcome (ℕ × Kernel)
unfolding child_views reap
sys_waitpid out pid exit_code_ptr k = do
  t ← current_task k
  let children = child_views out k (k.blocks t).children
  let found = reap (take_zombie pid children) t exit_code_ptr k
  if not (any_match pid children) then done (minus_one, k) else found

-- How a call goes on: it returns a result; it never returns, since another process was switched
-- to for good or the trap was no call; or another process runs, and the call returns the result
-- when this one is switched to again.
pub data Return : Type 0 where
  returned : ℕ → Kernel → Return
  switched : Kernel → Return
  suspended : ℕ → Kernel → Return

abbrev pub return : Outcome (ℕ × Kernel) → Outcome Return
return o = do (result, k) ← o; done (returned result k)

-- The arguments of a call.
pub record Args : Type 0 where
  pub a0 : ℕ
  pub a1 : ℕ
  pub a2 : ℕ

-- `sys_exit` switches away for good; `as i32` keeps 32 bits.
unfoldable pub sys_exit : Outside → ℕ → Kernel → Outcome Return
sys_exit out exit_code k = do
  k' ← exit_current_and_run_next (exit_code % 2 ^ 32) out.initproc k
  done (switched k')

-- The result of `sys_yield`, after the switch.
abbrev pub yielded : Outcome (ℕ × Kernel) → Outcome Return
yielded o = do (result, k) ← o; done (suspended result k)

unfoldable pub syscall : Platform → Outside → ℕ → Args → Kernel → Outcome Return
syscall p out syscall_id args k =
    if syscall_id == 56
    then return (sys_open out args.a0 (args.a1 % 2 ^ 32) k)
    else if syscall_id == 57
    then return (sys_close args.a0 k)
    else if syscall_id == 63
    then return (sys_read out args.a0 args.a1 args.a2 k)
    else if syscall_id == 64
    then return (sys_write out args.a0 args.a1 args.a2 k)
    else if syscall_id == 93
    then sys_exit out args.a0 k
    else if syscall_id == 124
    then yielded (sys_yield k)
    else if syscall_id == 169
    then done (returned out.time_ms k)
    else if syscall_id == 172
    then (do pid ← sys_getpid k; done (returned pid k))
    else if syscall_id == 220
    then return (sys_fork p k)
    else if syscall_id == 221
    then return (sys_exec p out args.a0 k)
    else if syscall_id == 260
    then return (sys_waitpid out args.a0 args.a1 k)
    else panic

-- The causes that `trap_handler` tells apart.
pub data Trap : Type 0 where
  user_env_call store_fault store_page_fault instruction_fault instruction_page_fault : Trap
  load_fault load_page_fault illegal_instruction supervisor_timer unsupported : Trap

-- A word of the current process's trap context is read or written.
abbrev pub cx_word : Kernel → ℕ → ℕ → ℕ
cx_word k t i = k.machine.words (k.blocks t).trap_cx_ppn i

abbrev pub set_cx_word : Kernel → ℕ → ℕ → ℕ → Kernel
set_cx_word k t i v =
    let m = k.machine in
    record k { machine = record m { words = write_word m.words (k.blocks t).trap_cx_ppn i v } }

-- The rest of `trap_handler` after a call of the process `t`, which runs: the result goes to
-- register 10 of the context that the process has then.
unfoldable pub resume : ℕ → ℕ → Kernel → Kernel
resume t result k = set_cx_word k t cx_a0 result

-- That rest follows at once, or in the state in which the process is switched to again.
abbrev pub set_result : ℕ → Return → Return
set_result t (returned result k) = returned result (resume t result k)
set_result t (switched k) = switched k
set_result t (suspended result k) = suspended result k

unfoldable pub env_call : Platform → Outside → Kernel → Outcome Return
env_call p out k = do
  t ← current_task k
  let k₁ = set_cx_word k t cx_sepc (add_usize (cx_word k t cx_sepc) 4)
  let args : Args = record { a0 = cx_word k₁ t 10; a1 = cx_word k₁ t 11; a2 = cx_word k₁ t 12 }
  r ← syscall p out (cx_word k₁ t 17) args k₁
  done (set_result t r)

-- A process that is killed exits with a negative code, an `i32`.
abbrev killed : Outside → ℕ → Kernel → Outcome Return
killed out code k = do
  k' ← exit_current_and_run_next (2 ^ 32 - code) out.initproc k
  done (switched k')

unfoldable pub trap_handler : Platform → Outside → Trap → Kernel → Outcome Return
trap_handler p out user_env_call k = env_call p out k
trap_handler p out illegal_instruction k = killed out 3 k
trap_handler p out supervisor_timer k = do
  s ← suspend_current_and_run_next k.scheduler
  done (switched (record k { scheduler = s }))
trap_handler p out unsupported k = panic
trap_handler p out _ k = killed out 2 k
