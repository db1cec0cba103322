-- ===== src/Task/Kernel/Calls/Fork.antt =====
-- `sys_fork` of os/src/syscall/process.rs: the child that it makes and the parent.
use ch_os.Base.{
  ℕ, ◌+◌, ◌≡◌, ◌≢◌, refl, sym, ap, subst, ◌∙◌, [], ◌∷◌, ◌++◌, some, arith, ==-refl, update,
}
use ch_os.Base.Outcome.{
  done, panic, Outcome, unwrap, ◌>>=◌, Meets, Meets->>=, Meets-any, Meets-panic,
}
use ch_os.Memory.PageTable.{Machine, write_word}
use ch_os.Memory.MemorySet.{MemorySet}
use ch_os.Memory.MemorySet.Fork.{from_existed_user}
use ch_os.Task.Pid
use ch_os.Task.Manager.{ready, add_task}
use ch_os.Task.Kernel.{
  Platform, Kernel, TaskControlBlock, goto_trap_return, trap_cx_frame, cx_a0, cx_kernel_sp,
}
use ch_os.Task.Kernel.Stack
use ch_os.Task.Kernel.Process.{fork, forked, push_child, start_block}
use ch_os.Task.Kernel.Process.Laws.{update-at, update-off}
use ch_os.Task.Kernel.Calls.{sys_fork, current_task}

-- What the block `parent` and its new child `child` are after the fork.
pub record Forked (p : Platform) (parent child : ℕ) (k k' : Kernel) : Type 0 where
  pub new_pid : (k'.blocks child).pid ≡ (Pid.alloc k.pids).0
  pub same_files : (k'.blocks child).fd_table ≡ (k.blocks parent).fd_table
  pub child_of : (k'.blocks child).parent ≡ some parent
  pub childless : (k'.blocks child).children ≡ []
  pub resumes : (k'.blocks child).task_cx ≡ goto_trap_return p (Stack.get_top (Pid.alloc k.pids).0)
  pub kernel_sp :
      k'.machine.words (k'.blocks child).trap_cx_ppn cx_kernel_sp
      ≡ Stack.get_top (Pid.alloc k.pids).0
  pub adopted : (k'.blocks parent).children ≡ (k.blocks parent).children ++ (child ∷ [])
  pub same_memory : (k'.blocks parent).memory_set ≡ (k.blocks parent).memory_set
  pub is_ready : k'.scheduler.task_status child ≡ ready
  pub still_running : k'.scheduler.current ≡ k.scheduler.current
  pub others : (b : ℕ) → b ≢ parent → b ≢ child → k'.blocks b ≡ k.blocks b

-- The state that `fork` ends in.
abbrev pub made : Platform → ℕ → Kernel → MemorySet → ℕ → MemorySet → Machine → Kernel
made p self k ms frame ks m =
    let pid = (Pid.alloc k.pids).0 in
    let born = forked p self (k.blocks self) ms frame pid in
    record k {
      machine = record m { words = write_word m.words frame cx_kernel_sp (Stack.get_top pid) };
      kernel_space = ks;
      pids = (Pid.alloc k.pids).1;
      scheduler = start_block k.scheduler k.next_block;
      blocks =
          update (update k.blocks k.next_block born) self (push_child (k.blocks self) k.next_block);
      next_block = k.next_block + 1;
    }

pub made-Forked :
    (p : Platform) (self : ℕ) (k : Kernel)
    → self ≢ k.next_block
    → (ms : MemorySet) (frame : ℕ) (ks : MemorySet) (m : Machine)
    → Forked p self k.next_block k (made p self k ms frame ks m)
made-Forked p self k apart ms frame ks m =
    let pid = (Pid.alloc k.pids).0 in
    let born : TaskControlBlock = forked p self (k.blocks self) ms frame pid in
    let with_child : ℕ → TaskControlBlock = update k.blocks k.next_block born in
    let k' : Kernel = made p self k ms frame ks m in
    let parent : k'.blocks self ≡ push_child (k.blocks self) k.next_block =
      update-at with_child self _ in
    let child : k'.blocks k.next_block ≡ born =
      update-off with_child self k.next_block _ (λ e. apart (sym e))
      ∙ update-at k.blocks k.next_block born in
    let top_written : k'.machine.words frame cx_kernel_sp ≡ Stack.get_top pid =
      rw (==-refl frame) refl in
    record {
      new_pid = ap (λ (t : TaskControlBlock). t.pid) child;
      same_files = ap (λ (t : TaskControlBlock). t.fd_table) child;
      child_of = ap (λ (t : TaskControlBlock). t.parent) child;
      childless = ap (λ (t : TaskControlBlock). t.children) child;
      resumes = ap (λ (t : TaskControlBlock). t.task_cx) child;
      kernel_sp =
          ap (λ (t : TaskControlBlock). k'.machine.words t.trap_cx_ppn cx_kernel_sp) child
          ∙ top_written;
      adopted = ap (λ (t : TaskControlBlock). t.children) parent;
      same_memory = ap (λ (t : TaskControlBlock). t.memory_set) parent;
      is_ready = update-at k.scheduler.task_status k.next_block ready;
      still_running = refl;
      others =
          λ b ne nc. update-off with_child self b _ ne ∙ update-off k.blocks k.next_block b born nc;
    }

fork-Forked :
    (p : Platform) (self : ℕ) (k : Kernel)
    → self ≢ k.next_block
    → Meets
        (Unit {0})
        (λ (b, k').
          (b ≡ k.next_block)
          × Forked p self b k k'
          × (k'.scheduler.ready_queue ≡ k.scheduler.ready_queue))
        (fork p self k)
unfolding fork
fork-Forked p self k apart =
    let t = k.blocks self in
    Meets->>= _ (from_existed_user p.strampoline t.memory_set k.machine) _ (Meets-any _) (λ e. e)
      (λ (ms, m₁) _.
        Meets->>= _ (trap_cx_frame ms m₁) _ (Meets-any _) (λ e. e)
          (λ frame _.
            Meets->>= _ (Stack.new (Pid.alloc k.pids).0 k.kernel_space m₁) _ (Meets-any _) (λ e. e)
              (λ (ks, m₂) _. (refl, made-Forked p self k apart ms frame ks m₂, refl))))

-- What `sys_fork` with the result `pid` leaves.
pub record SysForked (p : Platform) (parent child : ℕ) (k : Kernel) (pid : ℕ) (k' : Kernel)
    : Type 0 where
  pub forked : Forked p parent child k k'
  pub returned : pid ≡ (Pid.alloc k.pids).0
  pub child_gets_zero : k'.machine.words (k'.blocks child).trap_cx_ppn cx_a0 ≡ 0
  pub queued : k'.scheduler.ready_queue ≡ k.scheduler.ready_queue ++ (child ∷ [])

write_word-other :
    (words : ℕ → ℕ → ℕ) (f i v g j : ℕ) → i ≢ j → write_word words f i v g j ≡ words g j
write_word-other words f i v g j h = ground arith

-- The child's block and the queue after `sys_fork`, from those after `fork`.
abbrev returned_zero : ℕ → Kernel → Kernel
returned_zero b k =
    let words' = write_word k.machine.words (k.blocks b).trap_cx_ppn cx_a0 0 in
    let m = k.machine in
    record k { machine = record m { words = words' }; scheduler = add_task b k.scheduler }

returned_zero-SysForked :
    (p : Platform) (self b : ℕ) (k k' : Kernel)
    → Forked p self b k k'
    → k'.scheduler.ready_queue ≡ k.scheduler.ready_queue
    → SysForked p self b k (k'.blocks b).pid (returned_zero b k')
unfolding add_task
returned_zero-SysForked p self b k k' f queue =
    let frame = (k'.blocks b).trap_cx_ppn in
    record {
      forked = record {
        new_pid = f.new_pid;
        same_files = f.same_files;
        child_of = f.child_of;
        childless = f.childless;
        resumes = f.resumes;
        kernel_sp =
            write_word-other k'.machine.words frame cx_a0 0 frame cx_kernel_sp (omega arith)
            ∙ f.kernel_sp;
        adopted = f.adopted;
        same_memory = f.same_memory;
        is_ready = f.is_ready;
        still_running = f.still_running;
        others = f.others;
      };
      returned = f.new_pid;
      child_gets_zero = rw (==-refl frame) refl;
      queued = ap (λ q. q ++ (b ∷ [])) queue;
    }

-- `sys_fork` of the running process `self`.
abbrev fork_from : Platform → Kernel → ℕ → Outcome (ℕ × Kernel)
fork_from p k self = do (b, k') ← fork p self k; done ((k'.blocks b).pid, returned_zero b k')

-- The running process, whose block is not the next one to be made, forks. Unless `fork` panics,
-- the call returns the identifier of the child to the parent and leaves 0 in the child's register
-- `a0`, with the top of the child's own kernel stack in its trap context. The child has the next
-- block, the identifier that `alloc` gives, the opened files of the parent and no children; it is ready, and
-- waits behind all that waited before. It is the last of the parent's children; the parent's
-- address space is the same, and the parent still runs. Every other block stays.
pub sys_fork-SysForked :
    (p : Platform) (self : ℕ) (k : Kernel)
    → k.scheduler.current ≡ some self
    → self ≢ k.next_block
    → Meets
        (fork p self k ≡ panic)
        (λ (pid, k'). SysForked p self k.next_block k pid k')
        (sys_fork p k)
unfolding sys_fork current_task
sys_fork-SysForked p self k current apart =
    subst
      (λ o.
        Meets (fork p self k ≡ panic) (λ (pid, k'). SysForked p self k.next_block k pid k')
          (o >>= fork_from p k))
      (sym (ap unwrap current))
      (Meets->>= _ (fork p self k) (λ (b, k'). done ((k'.blocks b).pid, returned_zero b k'))
        (Meets-panic _ _ (fork p self k) (fork-Forked p self k apart)) (λ e. e)
        (λ (b, k') (at, f, queue).
          subst (λ c. SysForked p self c k (k'.blocks b).pid (returned_zero b k')) at
            (returned_zero-SysForked p self b k k' f queue)))
