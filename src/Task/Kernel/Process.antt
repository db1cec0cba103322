-- ===== src/Task/Kernel/Process.antt =====
-- os/src/task/task.rs, `TaskControlBlock`: `new`, `fork` and `exec`, and what is given back when a
-- block is dropped; `exit_current_and_run_next` of os/src/task/mod.rs. A block comes with its number.
pub mod Laws
pub mod KernelStack
pub mod Recycle
use ch_os.Base.{
  ℕ, ◌+◌, Bool, true, false, not, List, [], ◌∷◌, ◌++◌, Option, none, some, ◌==◌, if◌then◌else◌,
  update,
}
use ch_os.Base.Outcome.{Outcome, done, panic, assert, unwrap, ◌>>=◌, ◌>>◌}
use ch_os.Memory.PageTable.{Machine, PageTable, write_word}
use ch_os.Memory.MapArea.{Slice, drop_frame}
use ch_os.Memory.MemorySet.{MemorySet, drop_areas, recycle_data_pages}
use ch_os.Memory.MemorySet
use ch_os.Memory.MemorySet.Elf.{from_elf}
use ch_os.Memory.MemorySet.Fork.{from_existed_user}
use ch_os.Task.Pid
use ch_os.Task.Manager.{Scheduler, ready, zombie, take_current_task}
use ch_os.Task.Kernel.{
  Platform, Kernel, TaskControlBlock, File, stdin, stdout, goto_trap_return, trap_cx_frame,
  app_init_context, cx_kernel_sp,
}
use ch_os.Task.Kernel.Stack

-- A new block is ready, with exit code 0.
abbrev pub start_block : Scheduler → ℕ → Scheduler
start_block s b = record s {
  task_status = update s.task_status b ready;
  exit_code = update s.exit_code b 0;
}

unfoldable pub new : Platform → Slice → Kernel → Outcome (ℕ × Kernel)
new p elf_data k = do
  (memory_set, user_sp, entry_point, m₁) ← from_elf p.parse p.strampoline elf_data k.machine
  trap_cx_ppn ← trap_cx_frame memory_set m₁
  let (pid, pids') = Pid.alloc k.pids
  (kernel_space', m₂) ← Stack.new pid k.kernel_space m₁
  let top = Stack.get_top pid
  let satp = MemorySet.token kernel_space'
  let words' = app_init_context p entry_point user_sp satp top m₂.words trap_cx_ppn
  done (
    k.next_block,
    record k {
      machine = record m₂ { words = words' };
      kernel_space = kernel_space';
      pids = pids';
      scheduler = start_block k.scheduler k.next_block;
      blocks = update k.blocks k.next_block (record {
        pid = pid;
        trap_cx_ppn = trap_cx_ppn;
        base_size = user_sp;
        task_cx = goto_trap_return p top;
        memory_set = memory_set;
        parent = none;
        children = [];
        fd_table = some stdin ∷ some stdout ∷ some stdout ∷ [];
      });
      next_block = k.next_block + 1;
    },
  )

-- `children.push(task_control_block.clone())`
abbrev pub push_child : TaskControlBlock → ℕ → TaskControlBlock
push_child t b = record t { children = t.children ++ (b ∷ []) }

-- The block that `fork` makes of its parent `t`, the block `self`.
abbrev pub forked : Platform → ℕ → TaskControlBlock → MemorySet → ℕ → ℕ → TaskControlBlock
forked p self t memory_set trap_cx_ppn pid = record {
  pid = pid;
  trap_cx_ppn = trap_cx_ppn;
  base_size = t.base_size;
  task_cx = goto_trap_return p (Stack.get_top pid);
  memory_set = memory_set;
  parent = some self;
  children = [];
  fd_table = t.fd_table;
}

unfoldable pub fork : Platform → ℕ → Kernel → Outcome (ℕ × Kernel)
fork p self k = do
  let t = k.blocks self
  (memory_set, m₁) ← from_existed_user p.strampoline t.memory_set k.machine
  trap_cx_ppn ← trap_cx_frame memory_set m₁
  let (pid, pids') = Pid.alloc k.pids
  (kernel_space', m₂) ← Stack.new pid k.kernel_space m₁
  let words' = write_word m₂.words trap_cx_ppn cx_kernel_sp (Stack.get_top pid)
  let made = update k.blocks k.next_block (forked p self t memory_set trap_cx_ppn pid)
  done (
    k.next_block,
    record k {
      machine = record m₂ { words = words' };
      kernel_space = kernel_space';
      pids = pids';
      scheduler = start_block k.scheduler k.next_block;
      blocks = update made self (push_child t k.next_block);
      next_block = k.next_block + 1;
    },
  )

-- A `PageTable` drops its frames in the order of its vector, the last of the list here first.
unfoldable pub drop_nodes : List ℕ → Machine → Outcome Machine
drop_nodes [] m = done m
drop_nodes (f ∷ rest) m = do m' ← drop_nodes rest m; drop_frame (some f) m'

unfoldable pub drop_memory_set : MemorySet → Machine → Outcome Machine
drop_memory_set ms m = do m' ← drop_nodes ms.page_table.frames m; drop_areas ms.areas m'

unfoldable pub exec : Platform → ℕ → Slice → Kernel → Outcome Kernel
exec p self elf_data k = do
  let t = k.blocks self
  (memory_set, user_sp, entry_point, m₁) ← from_elf p.parse p.strampoline elf_data k.machine
  trap_cx_ppn ← trap_cx_frame memory_set m₁
  m₂ ← drop_memory_set t.memory_set m₁
  let top = Stack.get_top t.pid
  let satp = MemorySet.token k.kernel_space
  let words' = app_init_context p entry_point user_sp satp top m₂.words trap_cx_ppn
  let t' = record t { memory_set = memory_set; trap_cx_ppn = trap_cx_ppn }
  done (record k { machine = record m₂ { words = words' }; blocks = update k.blocks self t' })

-- The last handle to a block is dropped: its identifier, its kernel stack, its address space.
unfoldable pub drop_block : ℕ → Kernel → Outcome Kernel
drop_block b k = do
  let t = k.blocks b
  pids' ← Pid.dealloc k.pids t.pid
  (kernel_space', m₁) ← Stack.drop t.pid k.kernel_space k.machine
  m₂ ← drop_memory_set t.memory_set m₁
  done (record k { pids = pids'; kernel_space = kernel_space'; machine = m₂ })

-- The loop of `exit_current_and_run_next` that gives the children to `INITPROC`.
unfoldable pub adopt : List ℕ → ℕ → (ℕ → TaskControlBlock) → ℕ → TaskControlBlock
adopt [] initproc blocks = blocks
adopt (child ∷ rest) initproc blocks =
    let moved = update blocks child (record (blocks child) { parent = some initproc }) in
    let held = update moved initproc (push_child (moved initproc) child) in adopt rest initproc held

-- The current process ends. Its block is borrowed when `INITPROC` is, so that must be another.
unfoldable pub exit_current_and_run_next : ℕ → ℕ → Kernel → Outcome Kernel
exit_current_and_run_next exit_code initproc k = do
  let (o, s₁) = take_current_task k.scheduler
  self ← unwrap o
  let s₂ = record s₁ {
    task_status = update s₁.task_status self zombie;
    exit_code = update s₁.exit_code self exit_code;
  }
  assert (not (self == initproc))
  let blocks₁ = adopt (k.blocks self).children initproc k.blocks
  (memory_set', m') ← recycle_data_pages (blocks₁ self).memory_set k.machine
  let ended = record (blocks₁ self) { children = []; memory_set = memory_set' }
  done (record k { machine = m'; scheduler = s₂; blocks = update blocks₁ self ended })
