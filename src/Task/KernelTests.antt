-- ===== src/Task/KernelTests.antt =====
-- Calls, the end, the fork and the wait of a process at a concrete kernel.
use ch_os.Base.{ℕ, ◌+◌, ◌≡◌, refl, true, [], ◌∷◌, none, some, arith, ◌==◌, if◌then◌else◌}
use ch_os.Base.Outcome.{panic, Meets}
use ch_os.Memory.MemorySet.{recycle_data_pages}
use ch_os.Memory.Address
use ch_os.Memory.Entry
use ch_os.Memory.PageTable
use ch_os.Task.Manager.{ready, running, zombie}
use ch_os.Base.Bits.{add_usize}
use ch_os.User.Calls.{getpid, request}
use ch_os.User.Calls.Dispatch.{serve, Written, Served, trap_handler-Served}
use ch_os.Task.Kernel.Trap.{trap_handler, user_env_call, cx_word}
use ch_os.Task.Kernel.{cx_sepc, Platform, Kernel, TaskControlBlock, zero_init}
use ch_os.Task.Kernel.Calls.{Outside, sys_fork}
use ch_os.Task.Kernel.Calls.Fork.{SysForked, sys_fork-SysForked}
use ch_os.Task.Kernel.Process.{exit_current_and_run_next, fork}
use ch_os.Task.Kernel.Process.Laws.{Ended, exit_current_and_run_next-Ended}

-- Block 0 is `initproc` with the child 1, which runs and has the child 2.
abbrev block : ℕ → TaskControlBlock
block b = record {
  pid = b;
  trap_cx_ppn = 90 + b;
  base_size = 4096;
  task_cx = zero_init;
  memory_set = record { page_table = record { root_ppn = 80 + b; frames = [] }; areas = [] };
  parent = if b == 2 then some 1 else some 0;
  children = if b == 0 then 1 ∷ [] else if b == 1 then 2 ∷ [] else [];
  fd_table = [];
}

abbrev kernel : Kernel
kernel = record {
  machine = record {
    words = λ p i. 0;
    allocator = record { current = 95; end = 200; recycled = [] };
  };
  kernel_space = record { page_table = record { root_ppn = 70; frames = [] }; areas = [] };
  pids = record { current = 3; recycled = [] };
  scheduler = record {
    ready_queue = 2 ∷ 0 ∷ [];
    current = some 1;
    task_status = λ t. if t == 1 then running else ready;
    exit_code = λ t. 0;
  };
  blocks = block;
  next_block = 3;
  os_inodes = λ h. record {
    readable = true;
    writable = true;
    offset = 0;
    inode = record {
      block_id = 2;
      block_offset = 0;
      fs = record {
        inode_bitmap = record { start_block_id = 1; blocks = 1 };
        data_bitmap = record { start_block_id = 30; blocks = 1 };
        inode_area_start_block = 2;
        data_area_start_block = 31;
      };
    };
  };
  next_os_inode = 0;
  disk = λ b o. 0;
}

exit_current_and_run_next-Ended_example :
    Meets
      (recycle_data_pages (kernel.blocks 1).memory_set kernel.machine ≡ panic)
      (λ k'. Ended 7 0 1 kernel k')
      (exit_current_and_run_next 7 0 kernel)
exit_current_and_run_next-Ended_example =
    exit_current_and_run_next-Ended 7 0 1 kernel refl (λ e. ground arith) refl refl

abbrev platform : Platform
platform = record {
  parse = λ s. none;
  strampoline = 2149580800;
  trap_handler = 2149581000;
  trap_return = 2149581200;
  user_sstatus = 0;
}

sys_fork-SysForked_example :
    Meets
      (fork platform 1 kernel ≡ panic)
      (λ (pid, k'). SysForked platform 1 3 kernel pid k')
      (sys_fork platform kernel)
sys_fork-SysForked_example = sys_fork-SysForked platform 1 kernel refl (λ e. ground arith)

-- Process 1 traps with the call of `getpid` in its registers.
abbrev calling : Kernel
calling =
    let m = kernel.machine in
    record kernel { machine = record m { words = λ p i. if i == 17 then 172 else 0 } }

abbrev outside : Outside
outside = record {
  root = (kernel.os_inodes 0).inode;
  initproc = 0;
  answers = [];
  time_ms = 5;
  str_fuel = 9;
}

trap_handler-Served_example :
    (k₁ : Kernel) × Written 1 cx_sepc (add_usize (cx_word calling 1 cx_sepc) 4) calling k₁
    × Meets
        (serve platform outside getpid k₁ ≡ panic)
        (λ r. Served platform outside getpid 1 k₁ r)
        (trap_handler platform outside user_env_call calling)
unfolding request
trap_handler-Served_example =
    trap_handler-Served platform outside getpid 1 calling tt refl refl refl refl refl

-- Child 2 of process 1 has ended with the exit code 9.
abbrev childs_end : Kernel
childs_end =
    let s = kernel.scheduler in
    record kernel {
      scheduler = record s {
        ready_queue = 0 ∷ [];
        task_status = λ t. if t == 1 then running else if t == 2 then zombie else ready;
        exit_code = λ t. if t == 2 then 9 else 0;
      };
    }
