-- ===== src/Task/Kernel.antt =====
-- os/src/task/task.rs with what it stands on: the control blocks of the processes, the frames, the
-- kernel's address space, the identifiers and the opened files. A block is a number, since the
-- clones of an `Arc` share one block; its `task_status` and `exit_code` stand in the `Scheduler`.
-- What the assembly, the linker and the crate `xmas_elf` give is a `Platform`.
pub mod Stack
pub mod Process
pub mod Calls
pub mod Trap
use ch_os.Base.{
  ℕ, ◌+◌, ◌-◌, ◌*◌, ◌/◌, ◌%◌, ◌^◌, Bool, true, false, ◌&&◌, List, [], ◌∷◌, ◌++◌, Option, none, some,
  ◌==◌, ltb, if◌then◌else◌, update,
}
use ch_os.Base.Outcome.{Outcome, done, panic, unwrap, ◌>>=◌}
use ch_os.Memory.Address.{virt_addr, virt_to_page}
use ch_os.Memory.Entry
use ch_os.Memory.PageTable.{Machine, write_word}
use ch_os.Memory.MemorySet.{MemorySet, trap_context, translate}
use ch_os.Memory.MemorySet
use ch_os.Memory.MapArea.{Slice}
use ch_os.Memory.MemorySet.Elf.{ElfFile}
use ch_os.EasyFs.Disk.{Disk}
use ch_os.EasyFs.Vfs.{Inode}
use ch_os.Fs.OsInode.{OsInode}
use ch_os.Task.Pid.{PidAllocator}
use ch_os.Task.Manager.{Scheduler}

-- `user_sstatus` is what `app_init_context` reads of `sstatus`, with the user as previous mode.
pub record Platform : Type 0 where
  pub parse : Slice → Option ElfFile
  pub strampoline : ℕ
  pub trap_handler : ℕ
  pub trap_return : ℕ
  pub user_sstatus : ℕ

-- os/src/task/context.rs
pub record TaskContext : Type 0 where
  pub ra : ℕ
  pub sp : ℕ
  pub s : List ℕ

zeros : List ℕ
zeros = 0 ∷ 0 ∷ 0 ∷ 0 ∷ 0 ∷ 0 ∷ 0 ∷ 0 ∷ 0 ∷ 0 ∷ 0 ∷ 0 ∷ []

pub zero_init : TaskContext
zero_init = record { ra = 0; sp = 0; s = zeros }

unfoldable pub goto_trap_return : Platform → ℕ → TaskContext
unfolding zeros
goto_trap_return p kstack_ptr = record { ra = p.trap_return; sp = kstack_ptr; s = zeros }

-- The files behind descriptors: the console, or one of the opened files.
pub data File : Type 0 where
  stdin stdout : File
  os_inode : ℕ → File

-- `kernel_stack` holds the same number as `pid`.
pub record TaskControlBlock : Type 0 where
  pub pid : ℕ
  pub trap_cx_ppn : ℕ
  pub base_size : ℕ
  pub task_cx : TaskContext
  pub memory_set : MemorySet
  pub parent : Option ℕ
  pub children : List ℕ
  pub fd_table : List (Option File)

pub record Kernel : Type 0 where
  pub machine : Machine
  pub kernel_space : MemorySet
  pub pids : PidAllocator
  pub scheduler : Scheduler
  pub blocks : ℕ → TaskControlBlock
  pub next_block : ℕ
  pub os_inodes : ℕ → OsInode
  pub next_os_inode : ℕ
  pub disk : Disk

-- `get_user_token`
pub get_user_token : TaskControlBlock → ℕ
get_user_token t = MemorySet.token t.memory_set

-- The frame of the trap context: `translate(VirtAddr::from(TRAP_CONTEXT).into()).unwrap().ppn()`.
unfoldable pub trap_cx_frame : MemorySet → Machine → Outcome ℕ
trap_cx_frame ms m = do
  vpn ← virt_to_page (virt_addr trap_context)
  bits ← unwrap (translate ms vpn m)
  done (Entry.ppn bits)

-- A `TrapContext` lies at the start of its frame: `x`, then `sstatus`, `sepc`, `kernel_satp`,
-- `kernel_sp` and `trap_handler`.
abbrev pub cx_a0 : ℕ
cx_a0 = 10

abbrev pub cx_sepc : ℕ
cx_sepc = 33

abbrev pub cx_kernel_sp : ℕ
cx_kernel_sp = 35

-- `*trap_cx = TrapContext::app_init_context(..)`, with `set_sp` on register 2.
unfoldable pub app_init_context : Platform → ℕ → ℕ → ℕ → ℕ → (ℕ → ℕ → ℕ) → ℕ → ℕ → ℕ → ℕ
app_init_context p entry sp kernel_satp kernel_sp words frame f w =
    if (f == frame) && ltb w 37
    then (if w == 2
        then sp
        else if ltb w 32
        then 0
        else if w == 32
        then p.user_sstatus
        else if w == cx_sepc
        then entry
        else if w == 34
        then kernel_satp
        else if w == cx_kernel_sp
        then kernel_sp
        else p.trap_handler)
    else words f w
