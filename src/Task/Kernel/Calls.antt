-- ===== src/Task/Kernel/Calls.antt =====
-- os/src/syscall: the system calls of the current process on the whole kernel, and `syscall` itself.
-- The result -1 of `isize` is `minus_one`. What other processes do while the caller waits is left
-- out; the calls that switch to another process end at the switch.
pub mod Fork
pub mod ForkMemory
use ch_os.Base.{
  ℕ, ◌+◌, ◌-◌, ◌*◌, ◌/◌, ◌%◌, ◌^◌, Bool, true, false, ◌&&◌, List, [], ◌∷◌, Option, none, some, ◌==◌,
  ltb, leb, if◌then◌else◌, update, length,
}
use ch_os.Base.Bits.{add_usize}
use ch_os.Base.Bytes.{read_le}
use ch_os.Base.Utf8.{is_utf8}
use ch_os.Base.Outcome.{Outcome, done, panic, assert, unwrap, ◌>>=◌, ◌>>◌}
use ch_os.Memory.PageTable.{PageTable, write_word, from_token}
use ch_os.Memory.MapArea.{byte_of}
use ch_os.Memory.UserBuffer.{Slice, translated_byte_buffer}
use ch_os.Memory.UserString.{translated_str}
use ch_os.EasyFs.DiskInode.Content.{Buffer}
use ch_os.EasyFs.Vfs.{Inode, byte_at, bytes_from}
use ch_os.Fs.OsInode.{OsInode, open_file, read_all}
use ch_os.Fs.OsInode
use ch_os.Syscall.Files
use ch_os.Task.Manager.{add_task, suspend_current_and_run_next}
use ch_os.Task.Kernel.{Platform, Kernel, File, stdin, stdout, os_inode, cx_a0, get_user_token}
use ch_os.Task.Kernel.Process.{fork, exec}

-- What the calls take from outside: `ROOT_INODE`, `INITPROC`, what `console_getchar` answers, in
-- order, the time in milliseconds, and a bound on the length of the strings that a user passes.
pub record Outside : Type 0 where
  pub root : Inode
  pub initproc : ℕ
  pub answers : List ℕ
  pub time_ms : ℕ
  pub str_fuel : ℕ

abbrev pub minus_one : ℕ
minus_one = 2 ^ 64 - 1

-- `current_task().unwrap()`
unfoldable pub current_task : Kernel → Outcome ℕ
current_task k = unwrap k.scheduler.current

-- The page table of a user, by `current_user_token`.
abbrev pub user_table : Kernel → ℕ → PageTable
user_table k t = from_token (get_user_token (k.blocks t))

-- The bytes of the slices of a user's buffer, and the slices written back.
abbrev pub slice_buffer : (ℕ → ℕ → ℕ) → Slice → Buffer
slice_buffer words s = record {
  len = s.to - s.from;
  byte = λ i. byte_of words s.frame (s.from + i);
}

pub slice_buffers : (ℕ → ℕ → ℕ) → List Slice → List Buffer
slice_buffers words [] = []
slice_buffers words (s ∷ ss) = slice_buffer words s ∷ slice_buffers words ss

abbrev pub store_slice : (ℕ → ℕ → ℕ) → Slice → Buffer → ℕ → ℕ → ℕ
store_slice words s b p w =
    if p == s.frame
    then read_le 8
        (λ i. if leb s.from i && ltb i s.to then b.byte (i - s.from) else byte_of words s.frame i)
        (8 * w)
    else words p w

pub store_slices : (ℕ → ℕ → ℕ) → List Slice → List Buffer → ℕ → ℕ → ℕ
store_slices words (s ∷ ss) (b ∷ bs) = store_slices (store_slice words s b) ss bs
store_slices words _ _ = words

-- `UserBuffer::len`
pub total_len : List Buffer → ℕ
total_len [] = 0
total_len (b ∷ bs) = add_usize b.len (total_len bs)

-- The loop of `Stdin::read`, up to a character that is not zero.
pub wait_char : List ℕ → Outcome ℕ
wait_char [] = panic
wait_char (c ∷ cs) = let later = wait_char cs in if c == 0 then later else done (c % 256)

abbrev first_byte : ℕ → List Buffer → List Buffer
first_byte c [] = []
first_byte c (b ∷ bs) = record b { byte = update b.byte 0 c } ∷ bs

-- `File::read` and `File::write`, with `readable` and `writable`.
pub readable : Kernel → File → Bool
readable k stdin = true
readable k stdout = false
readable k (os_inode h) = (k.os_inodes h).readable

pub writable : Kernel → File → Bool
writable k stdin = false
writable k stdout = true
writable k (os_inode h) = (k.os_inodes h).writable

abbrev with_words : Kernel → (ℕ → ℕ → ℕ) → Kernel
with_words k words' = let m = k.machine in record k { machine = record m { words = words' } }

unfoldable pub read_file : Outside → File → List Slice → Kernel → Outcome (ℕ × Kernel)
unfolding slice_buffers total_len store_slices
read_file out stdin slices k = do
  let buffers = slice_buffers k.machine.words slices
  assert (total_len buffers == 1)
  ch ← wait_char out.answers
  done (1, with_words k (store_slices k.machine.words slices (first_byte ch buffers)))
read_file out stdout slices k = panic
read_file out (os_inode h) slices k = do
  let buffers = slice_buffers k.machine.words slices
  (size, buffers', f') ← OsInode.read (k.os_inodes h) buffers k.disk
  let k' = with_words k (store_slices k.machine.words slices buffers')
  done (size, record k' { os_inodes = update k.os_inodes h f' })

pub all_utf8 : List Buffer → Bool
all_utf8 [] = true
all_utf8 (b ∷ bs) = is_utf8 (bytes_from b.len b.byte 0) && all_utf8 bs

-- What is printed is left out.
unfoldable pub write_file : File → List Slice → Kernel → Outcome (ℕ × Kernel)
unfolding slice_buffers total_len all_utf8
write_file stdin slices k = panic
write_file stdout slices k = do
  let buffers = slice_buffers k.machine.words slices
  assert (all_utf8 buffers)
  done (total_len buffers, k)
write_file (os_inode h) slices k = do
  let buffers = slice_buffers k.machine.words slices
  (size, f', d') ← OsInode.write (k.os_inodes h) buffers k.disk
  done (size, record k { os_inodes = update k.os_inodes h f'; disk = d' })

-- The common part of `sys_read` and `sys_write` after the tests of the descriptor.
abbrev transfer :
    (File → List Slice → Kernel → Outcome (ℕ × Kernel))
    → Option File
    → PageTable
    → ℕ
    → ℕ
    → Kernel
    → Outcome (ℕ × Kernel)
transfer io none pt buf len k = done (minus_one, k)
transfer io (some file) pt buf len k = do
  slices ← translated_byte_buffer k.machine.words pt buf len
  io file slices k

unfoldable pub sys_read : Outside → ℕ → ℕ → ℕ → Kernel → Outcome (ℕ × Kernel)
sys_read out fd buf len k = do
  t ← current_task k
  transfer (read_file out) (Files.opened_file (readable k) fd (k.blocks t).fd_table)
      (user_table k t) buf len k

unfoldable pub sys_write : Outside → ℕ → ℕ → ℕ → Kernel → Outcome (ℕ × Kernel)
sys_write out fd buf len k = do
  t ← current_task k
  transfer write_file (Files.opened_file (writable k) fd (k.blocks t).fd_table) (user_table k t) buf
      len k

-- `isize` of a descriptor, or -1.
abbrev fd_result : Option ℕ → ℕ
fd_result none = minus_one
fd_result (some fd) = fd

abbrev with_fds : Kernel → ℕ → List (Option File) → Kernel
with_fds k t fds =
    let block = k.blocks t in
    record k { blocks = update k.blocks t (record block { fd_table = fds }) }

-- An opened file gets a number of its own, and the lowest descriptor that is free.
abbrev install : ℕ → Option OsInode → Kernel → ℕ × Kernel
install t none k = (minus_one, k)
install t (some f) k =
    let h = k.next_os_inode in
    let (fd, fds) = Files.sys_open (some (os_inode h)) (k.blocks t).fd_table in
    let k₁ = record k { os_inodes = update k.os_inodes h f; next_os_inode = h + 1 } in
    (fd_result fd, with_fds k₁ t fds)

-- What `OpenFlags::from_bits` accepts: no bits but 0, 1, 9 and 10.
pub known_flags : ℕ → Bool
known_flags flags = (flags / 4 % 128 == 0) && ltb flags 2048

unfoldable pub sys_open : Outside → ℕ → ℕ → Kernel → Outcome (ℕ × Kernel)
sys_open out path flags k = do
  t ← current_task k
  name ← translated_str out.str_fuel k.machine.words (user_table k t) path
  assert (known_flags flags)
  (opened, d') ← open_file out.root name flags k.disk
  done (install t opened (record k { disk = d' }))

unfoldable pub sys_close : ℕ → Kernel → Outcome (ℕ × Kernel)
sys_close fd k = do
  t ← current_task k
  let (result, fds) = Files.sys_close fd (k.blocks t).fd_table
  done (fd_result result, with_fds k t fds)

unfoldable pub sys_yield : Kernel → Outcome (ℕ × Kernel)
sys_yield k = do s ← suspend_current_and_run_next k.scheduler; done (0, record k { scheduler = s })

pub sys_getpid : Kernel → Outcome ℕ
sys_getpid k = do t ← current_task k; done (k.blocks t).pid

-- The child returns from its `fork` with 0 in its register `a0`.
unfoldable pub sys_fork : Platform → Kernel → Outcome (ℕ × Kernel)
sys_fork p k = do
  t ← current_task k
  (b, k') ← fork p t k
  let child = k'.blocks b
  let k₂ = with_words k' (write_word k'.machine.words child.trap_cx_ppn cx_a0 0)
  done (child.pid, record k₂ { scheduler = add_task b k'.scheduler })

abbrev exec_opened : Platform → ℕ → Option OsInode → Kernel → Outcome (ℕ × Kernel)
exec_opened p t none k = done (minus_one, k)
exec_opened p t (some f) k = do
  (v, f') ← read_all f k.disk
  k' ← exec p t (record { len = length v; byte = byte_at v }) k
  done (0, k')

unfoldable pub sys_exec : Platform → Outside → ℕ → Kernel → Outcome (ℕ × Kernel)
sys_exec p out path k = do
  t ← current_task k
  name ← translated_str out.str_fuel k.machine.words (user_table k t) path
  (opened, d') ← open_file out.root name 0 k.disk
  exec_opened p t opened (record k { disk = d' })
