-- ===== src/Task/ForkTests.antt =====
-- The fork and the end of a process with one page, that of its trap context.
use ch_os.Base.{
  ℕ, ◌+◌, ◌*◌, ◌-◌, ◌<◌, ◌^◌, ◌≡◌, ◌⊎◌, refl, subst, true, ◌&&◌, [], ◌∷◌, ◌++◌, Option, none, some,
  arith, ◌==◌, if◌then◌else◌, update,
}
use ch_os.Base.Outcome.{done, Meets}
use ch_os.Memory.Address
use ch_os.Memory.Address.{phys_to_page, phys_addr}
use ch_os.Memory.Entry
use ch_os.Memory.Entry.{is_valid-zero}
use ch_os.Memory.Frames.Laws.{free_frames}
use ch_os.Memory.PageTable.{Machine, PageTable}
use ch_os.Memory.PageTable
use ch_os.Memory.PageTable.Tree.{Node, top, mid, leaf}
use ch_os.Memory.PageTable.Grow.{IsTable}
use ch_os.Memory.PageTable.Refine.{page_entry}
use ch_os.Memory.MapArea.{MapArea, framed}
use ch_os.Memory.MapArea.Frames.{HasFrames, entry_of}
use ch_os.Memory.MemorySet.{MemorySet, recycle_data_pages}
use ch_os.Memory.MemorySet.Fork.Area.{IsMapped}
use ch_os.Memory.MemorySet.Fork.Areas.{page_count}
use ch_os.Task.Manager.{ready, running}
use ch_os.Task.Pid
use ch_os.Task.Kernel.{Platform, Kernel, zero_init}
use ch_os.Task.Kernel.Process.{fork, drop_memory_set}
use ch_os.Task.Kernel.Process.Recycle.{
  CanReturn, Returned, data_of_areas, last_first, drop_memory_set-recycle_data_pages,
}
use ch_os.Task.Kernel.Process.KernelStack.{StackTaken}
use ch_os.Task.Kernel.Calls.Fork.{Forked}
use ch_os.Task.Kernel.Calls.ForkMemory.{ForkMemory, fork-ForkMemory}

-- The frames 10, 11 and 12 are a table that maps that page to frame 30; frame 20 is the kernel's.
abbrev words : ℕ → ℕ → ℕ
words p i =
    if (p == 10) && (i == 511)
    then 11 * 1024 + 1
    else if (p == 11) && (i == 511)
    then 12 * 1024 + 1
    else if (p == 12) && (i == 510)
    then 30 * 1024 + 7
    else 0

abbrev machine : Machine
machine = record { words = words; allocator = record { current = 40; end = 100; recycled = [] } }

abbrev area : MapArea
area = record {
  vpn_range = record { l = 2 ^ 27 - 2; r = 2 ^ 27 - 1 };
  data_frames = (2 ^ 27 - 2, 30) ∷ [];
  map_type = framed;
  map_perm = 6;
}

abbrev user : MemorySet
user = record {
  page_table = record { root_ppn = 10; frames = 12 ∷ 11 ∷ 10 ∷ [] };
  areas = area ∷ [];
}

abbrev kernel_space : MemorySet
kernel_space = record { page_table = record { root_ppn = 20; frames = 20 ∷ [] }; areas = [] }

abbrev owner : ℕ → Option Node
owner =
    update (update (update (λ p. none) 10 (some top)) 11 (some (mid 511))) 12 (some (leaf 511 511))

abbrev kernel_owner : ℕ → Option Node
kernel_owner = update (λ p. none) 20 (some top)

links : (Entry.ppn (11 * 1024 + 1) ≡ 11) × (Entry.ppn (12 * 1024 + 1) ≡ 12)
unfolding Entry.ppn Address.phys_page_num
links = (refl, refl)

user-IsTable : IsTable 10 owner user.page_table machine
user-IsTable = record {
  tree = record {
    rooted = refl;
    linked = λ f i n c o p valid. ground (arith, is_valid-zero, links.0, links.1);
  };
  frames_valid = ground arith;
  owned = λ f n o. ground arith;
}

kernel-IsTable : IsTable 10 kernel_owner kernel_space.page_table machine
kernel-IsTable = record {
  tree = record { rooted = refl; linked = λ f i n c o p valid. ground (arith, is_valid-zero) };
  frames_valid = ground arith;
  owned = λ f n o. ground arith;
}

area-HasFrames : HasFrames 10 owner machine area.data_frames
area-HasFrames = record {
  allocated = λ v f e. ground arith;
  unowned = λ v f e. ground arith;
  distinct = λ v v' f e e'. ground arith;
}

area-IsMapped : IsMapped 10 owner user.page_table area machine
unfolding Entry.ppn Entry.entry Address.phys_page_num PageTable.find_pte PageTable.find_from
    PageTable.translate Address.indexes Address.indexes_from Entry.is_valid Entry.flags
area-IsMapped = record {
  table = user-IsTable;
  held = area-HasFrames;
  is_framed = refl;
  range = (omega arith, omega arith);
  perm = omega arith;
  present = λ v h. ground arith;
  entries = λ v h.
      let e : 2 ^ 27 - 2 ≡ v = ground arith in
      subst (λ v. page_entry words user.page_table v ≡ entry_of area v) e refl;
}

-- Block 0 is the one process; its identifier is 0.
abbrev kernel : Kernel
kernel = record {
  machine = machine;
  kernel_space = kernel_space;
  pids = record { current = 1; recycled = [] };
  scheduler = record {
    ready_queue = [];
    current = some 0;
    task_status = λ t. if t == 0 then running else ready;
    exit_code = λ t. 0;
  };
  blocks = λ b. record {
    pid = b;
    trap_cx_ppn = 30;
    base_size = 4096;
    task_cx = zero_init;
    memory_set = user;
    parent = none;
    children = [];
    fd_table = [];
  };
  next_block = 1;
  os_inodes = λ h. record {
    readable = true;
    writable = true;
    offset = 0;
    inode = record {
      block_id = 2;
      block_offset = 0;
      fs = record {
        inode_bitmap = record { start_block_id = 1; blocks = 1 };
        data_bitmap = record { start_block_id = 30; blocks = 1 };
        inode_area_start_block = 2;
        data_area_start_block = 31;
      };
    };
  };
  next_os_inode = 0;
  disk = λ b o. 0;
}

abbrev platform : Platform
platform = record {
  parse = λ s. none;
  strampoline = 0x80001 * 4096;
  trap_handler = 2149581000;
  trap_return = 2149581200;
  user_sstatus = 0;
}

code_frame : phys_to_page (phys_addr platform.strampoline) ≡ done 0x80001
unfolding phys_to_page phys_addr Address.phys_offset Address.phys_floor
code_frame = refl

next_pid : (Pid.alloc kernel.pids).0 < 2 ^ 25
unfolding Pid.alloc
next_pid = omega arith

fork-ForkMemory_example :
    Meets
      ((free_frames machine.allocator < 3 * page_count user.areas + 9)
        ⊎ StackTaken (Pid.alloc kernel.pids).0 kernel_space machine)
      (λ (b, k').
        (b ≡ 1) × Forked platform 0 b kernel k' × ForkMemory 10 0x80001 kernel_owner 0 kernel b k')
      (fork platform 0 kernel)
fork-ForkMemory_example =
    fork-ForkMemory 10 0x80001 owner kernel_owner platform 0 kernel (λ e. ground arith) code_frame
      (omega arith) user-IsTable ((λ v h. refl), tt) (area-IsMapped, tt) refl refl kernel-IsTable
      next_pid

user-CanReturn :
    CanReturn 10 (data_of_areas user.areas ++ last_first user.page_table.frames) machine
user-CanReturn = record {
  valid = ground arith;
  distinct = (refl, (refl, (refl, (refl, tt))));
  allocated = λ q h. ground arith;
}

drop_memory_set-recycle_data_pages_example :
    (ms' : MemorySet) × (m' : Machine) × (m'' : Machine) × (recycle_data_pages user machine
      ≡ done (ms', m'))
    × (drop_memory_set ms' m' ≡ done m'')
    × (ms'.areas ≡ [])
    × Returned 10 (data_of_areas user.areas) machine m'
    × Returned 10 (data_of_areas user.areas ++ last_first user.page_table.frames) machine m''
drop_memory_set-recycle_data_pages_example =
    drop_memory_set-recycle_data_pages 10 user machine user-CanReturn
