-- ===== src/Fs/OsInode.antt =====
-- os/src/fs/inode.rs: a file of the file system with the place that it is read and written at. The
-- disk is what the block cache shows. `root` is `ROOT_INODE`.
pub mod ReadAll
use ch_os.Base.{
  ℕ, zero, suc, ◌+◌, ◌*◌, ◌^◌, Bool, true, false, Option, none, some, ◌==◌, if◌then◌else◌, List, [],
  ◌∷◌, ◌++◌, bit_and,
}
use ch_os.Base.Bits.{add_usize}
use ch_os.Base.Outcome.{Outcome, done, panic, assert, ◌>>=◌, ◌>>◌}
use ch_os.EasyFs.Disk.{Disk}
use ch_os.EasyFs.DiskInode.Content.{Buffer}
use ch_os.EasyFs.Vfs.{Inode, bytes_from}
use ch_os.EasyFs.Vfs
use ch_os.EasyFs.Efs.{EasyFileSystem}
use ch_os.Syscall.Files.{read_write}

pub record OsInode : Type 0 where
  pub readable : Bool
  pub writable : Bool
  pub offset : ℕ
  pub inode : Inode

pub new : Bool → Bool → Inode → OsInode
new readable writable inode = record {
  readable = readable;
  writable = writable;
  offset = 0;
  inode = inode;
}

-- The loop of `read_all`, on fuel.
unfoldable pub read_all_from : ℕ → OsInode → Buffer → Disk → Outcome (List ℕ × OsInode)
read_all_from zero f buffer d = panic
read_all_from (suc fuel) f buffer d = do
  (len, buffer') ← Vfs.read_at f.inode f.offset buffer d
  let more = (do
    (v, f') ← read_all_from fuel (record f { offset = add_usize f.offset len }) buffer' d
    done (bytes_from len buffer'.byte 0 ++ v, f'))
  if len == 0 then done ([], f) else more

-- The bytes up to the end of the file. Each round but the last reads a byte at least.
unfoldable pub read_all : OsInode → Disk → Outcome (List ℕ × OsInode)
read_all f d =
    read_all_from (suc (Vfs.disk_inode f.inode d).size) f (record { len = 512; byte = λ i. 0 }) d

-- The flags that `open_file` tests.
abbrev pub flag_create : ℕ
flag_create = 2 ^ 9

abbrev pub flag_trunc : ℕ
flag_trunc = 2 ^ 10

abbrev contains_flags : ℕ → ℕ → Bool
contains_flags flags f = bit_and flags f == f

-- A file that was found, with its contents cleared or kept.
unfoldable pub open_found : Bool → ℕ → Option Inode → Disk → Outcome (Option OsInode × Disk)
open_found cleared flags none d = done (none, d)
open_found cleared flags (some inode) d = do
  let (readable, writable) = read_write flags
  let cleared_disk = Vfs.clear inode d
  d' ← if cleared then cleared_disk else done d
  done (some (new readable writable inode), d')

-- The branch of `CREATE`.
unfoldable pub open_create :
    Inode → List ℕ → ℕ → Option Inode → Disk → Outcome (Option OsInode × Disk)
open_create root name flags (some inode) d = open_found true flags (some inode) d
open_create root name flags none d = do
  (made, d') ← Vfs.create root name d
  open_found false flags made d'

pub open_file : Inode → List ℕ → ℕ → Disk → Outcome (Option OsInode × Disk)
unfolding open_create open_found
open_file root name flags d = do
  found ← Vfs.find root name d
  if contains_flags flags flag_create
      then open_create root name flags found d
      else open_found (contains_flags flags flag_trunc) flags found d

-- `File::read` over the slices of a user's buffer: it stops where the file gives nothing more.
unfoldable pub read_slices : OsInode → List Buffer → ℕ → Disk → Outcome (ℕ × List Buffer × OsInode)
read_slices f [] total d = done (total, [], f)
read_slices f (slice ∷ rest) total d = do
  (size, slice') ← Vfs.read_at f.inode f.offset slice d
  let more = (do
    (total', rest', f') ←
        read_slices (record f { offset = add_usize f.offset size }) rest (add_usize total size) d
    done (total', slice' ∷ rest', f'))
  if size == 0 then done (total, slice' ∷ rest, f) else more

pub read : OsInode → List Buffer → Disk → Outcome (ℕ × List Buffer × OsInode)
read f buffers d = read_slices f buffers 0 d

-- `File::write`: every slice must be written to its end.
unfoldable pub write_slices : OsInode → List Buffer → ℕ → Disk → Outcome (ℕ × OsInode × Disk)
write_slices f [] total d = done (total, f, d)
write_slices f (slice ∷ rest) total d = do
  (size, d') ← Vfs.write_at f.inode f.offset slice d
  assert (size == slice.len)
  write_slices (record f { offset = add_usize f.offset size }) rest (add_usize total size) d'

pub write : OsInode → List Buffer → Disk → Outcome (ℕ × OsInode × Disk)
write f buffers d = write_slices f buffers 0 d
