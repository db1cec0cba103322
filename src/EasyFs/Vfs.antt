-- ===== src/EasyFs/Vfs.antt =====
-- easy-fs/src/vfs.rs: the inodes that the file system's users hold, on the blocks that the cache
-- shows. `fs` and `block_device` are behind pointers in the source; the value of `fs` never changes
-- after `create` or `open`. `block_cache_sync_all` changes nothing of what the cache shows.
pub mod Lookup
use ch_os.Base.{
  ℕ, zero, suc, ◌+◌, ◌*◌, ◌/◌, ◌%◌, ◌^◌, Bool, true, false, ◌&&◌, Option, none, some, ◌==◌, leb,
  ltb, if◌then◌else◌, List, [], ◌∷◌, length, update,
}
use ch_os.Base.Bits.{add_usize}
use ch_os.Base.Bytes.{read_le, write_le}
use ch_os.Base.Outcome.{Outcome, done, assert, ◌>>=◌, ◌>>◌}
use ch_os.EasyFs.Disk.{Disk}
use ch_os.EasyFs.Layout.{
  DiskInodeType, file, directory, DirEntry, dirent_sz, empty_entry, new_entry, entry_name,
  blocks_num_needed, total_blocks,
}
use ch_os.EasyFs.DiskInode.{DiskInode, initialize, is_dir, clear_size}
use ch_os.EasyFs.DiskInode
use ch_os.EasyFs.DiskInode.Content.{Buffer}
use ch_os.EasyFs.DiskInode.Content
use ch_os.EasyFs.Efs.{EasyFileSystem, get_disk_inode_pos, alloc_inode, alloc_data, dealloc_data}

pub record Inode : Type 0 where
  pub block_id : ℕ
  pub block_offset : ℕ
  pub fs : EasyFileSystem

-- A `DiskInode` in a block: little-endian numbers of 32 bits and the byte of the kind.
unfoldable pub decode_inode : (ℕ → ℕ) → ℕ → DiskInode
decode_inode bytes o = record {
  size = read_le 4 bytes o;
  direct = λ i. read_le 4 bytes (o + 4 + i * 4);
  indirect1 = read_le 4 bytes (o + 116);
  indirect2 = read_le 4 bytes (o + 120);
  kind = if bytes (o + 124) == 1 then directory else file;
}

abbrev pub kind_byte : DiskInodeType → ℕ
kind_byte file = 0
kind_byte directory = 1

unfoldable pub encode_direct : ℕ → (ℕ → ℕ) → (ℕ → ℕ) → ℕ → ℕ → ℕ
encode_direct zero direct bytes o = bytes
encode_direct (suc n) direct bytes o =
    write_le 4 (encode_direct n direct bytes o) (o + n * 4) (direct n)

unfoldable pub encode_inode : DiskInode → (ℕ → ℕ) → ℕ → ℕ → ℕ
encode_inode n bytes o =
    let sized = write_le 4 bytes o n.size in
    let placed = encode_direct 28 n.direct sized (o + 4) in
    let linked = write_le 4 (write_le 4 placed (o + 116) n.indirect1) (o + 120) n.indirect2 in
    update linked (o + 124) (kind_byte n.kind)

-- The inode that lies in its place.
abbrev pub disk_inode : Inode → Disk → DiskInode
disk_inode i d = decode_inode (d i.block_id) i.block_offset

-- The assertion of `get_ref` and `get_mut`: a `DiskInode` has 128 bytes, a block 512.
abbrev pub lies_inside : Inode → Bool
lies_inside i = leb (i.block_offset + 128) 512

unfoldable pub read_disk_inode : Inode → Disk → Outcome DiskInode
read_disk_inode i d = do assert (lies_inside i); done (disk_inode i d)

-- The inode that `modify_disk_inode` leaves is written in its place. The calls that the closure
-- makes touch other blocks: its own block is locked.
unfoldable pub write_disk_inode : Inode → DiskInode → Disk → Outcome Disk
write_disk_inode i n d = do
  assert (lies_inside i)
  done (update d i.block_id (encode_inode n (d i.block_id) i.block_offset))

-- `DirEntry::as_bytes` and `as_bytes_mut`: the 32 bytes of an entry.
unfoldable pub byte_at : List ℕ → ℕ → ℕ
byte_at [] i = 0
byte_at (c ∷ cs) zero = c
byte_at (c ∷ cs) (suc i) = byte_at cs i

unfoldable pub bytes_from : ℕ → (ℕ → ℕ) → ℕ → List ℕ
bytes_from zero bytes o = []
bytes_from (suc n) bytes o = bytes o ∷ bytes_from n bytes (o + 1)

unfoldable pub entry_buffer : DirEntry → Buffer
entry_buffer e = record { len = dirent_sz; byte = write_le 4 (byte_at e.name) 28 e.inode_number }

unfoldable pub buffer_entry : Buffer → DirEntry
buffer_entry b = record { name = bytes_from 28 b.byte 0; inode_number = read_le 4 b.byte 28 }

-- `==` on names, byte by byte.
abbrev pub same_name : List ℕ → List ℕ → Bool
same_name [] [] = true
same_name (a ∷ xs) (b ∷ ys) = (a == b) && same_name xs ys
same_name _ _ = false

-- The entry at `i` of a directory, read into `dirent`.
unfoldable pub read_entry : DiskInode → ℕ → DirEntry → Disk → Outcome DirEntry
read_entry n i dirent d = do
  (size, buf) ← Content.read_at n (dirent_sz * i) (entry_buffer dirent) d
  assert (size == dirent_sz)
  done (buffer_entry buf)

-- The loop of `find_inode_id` over the `left` entries from `i` on.
unfoldable pub find_entry : ℕ → ℕ → List ℕ → DiskInode → DirEntry → Disk → Outcome (Option ℕ)
find_entry zero i name n dirent d = done none
find_entry (suc left) i name n dirent d = do
  e ← read_entry n i dirent d
  entry ← entry_name e.name
  let later = find_entry left (i + 1) name n e d
  if same_name entry name then done (some e.inode_number) else later

unfoldable pub find_inode_id : List ℕ → DiskInode → Disk → Outcome (Option ℕ)
find_inode_id name n d = do
  assert (is_dir n)
  find_entry (n.size / dirent_sz) 0 name n empty_entry d

-- `Inode::new` at the place of an inode.
unfoldable pub inode_at : EasyFileSystem → ℕ → Inode
inode_at fs inode_id =
    let (block_id, block_offset) = get_disk_inode_pos fs inode_id in
    record { block_id = block_id; block_offset = block_offset; fs = fs }

-- easy-fs/src/efs.rs
pub root_inode : EasyFileSystem → Inode
root_inode efs = inode_at efs 0

pub found_inode : EasyFileSystem → Option ℕ → Option Inode
found_inode fs none = none
found_inode fs (some inode_id) = some (inode_at fs inode_id)

pub find : Inode → List ℕ → Disk → Outcome (Option Inode)
find i name d = do
  n ← read_disk_inode i d
  found ← find_inode_id name n d
  done (found_inode i.fs found)

-- `blocks_needed` blocks of data.
unfoldable pub alloc_blocks : ℕ → EasyFileSystem → Disk → Outcome (List ℕ × Disk)
alloc_blocks zero fs d = done ([], d)
alloc_blocks (suc n) fs d = do
  (b, d') ← alloc_data fs d
  (v, d'') ← alloc_blocks n fs d'
  done (b ∷ v, d'')

unfoldable pub increase_size : EasyFileSystem → ℕ → DiskInode → Disk → Outcome (DiskInode × Disk)
increase_size fs new_size n d =
    let grown = (do
      blocks_needed ← blocks_num_needed n.size new_size
      (v, d') ← alloc_blocks blocks_needed fs d
      (n', d'', left) ← DiskInode.increase_size n new_size v d'
      done (n', d'')) in
    if ltb new_size n.size then done (n, d) else grown

-- What `create` does where the name is free.
unfoldable pub create_entry : Inode → List ℕ → Disk → Outcome (Inode × Disk)
create_entry i name d = do
  (new_inode_id, d₁) ← alloc_inode i.fs d
  let new_inode = inode_at i.fs new_inode_id
  d₂ ← write_disk_inode new_inode (initialize file) d₁
  root ← read_disk_inode i d₂
  let file_count = root.size / dirent_sz
  (root', d₃) ← increase_size i.fs ((file_count + 1) * dirent_sz % 2 ^ 32) root d₂
  dirent ← new_entry name new_inode_id
  (size, d₄) ← Content.write_at root' (file_count * dirent_sz) (entry_buffer dirent) d₃
  d₅ ← write_disk_inode i root' d₄
  done (new_inode, d₅)

pub created : Inode → List ℕ → Option ℕ → Disk → Outcome (Option Inode × Disk)
created i name (some inode_id) d = done (none, d)
created i name none d = do (new_inode, d') ← create_entry i name d; done (some new_inode, d')

pub create : Inode → List ℕ → Disk → Outcome (Option Inode × Disk)
unfolding created
create i name d = do n ← read_disk_inode i d; found ← find_inode_id name n d; created i name found d

-- The loop of `ls`.
unfoldable pub list_entries : ℕ → ℕ → DiskInode → Disk → Outcome (List (List ℕ))
list_entries zero i n d = done []
list_entries (suc left) i n d = do
  e ← read_entry n i empty_entry d
  name ← entry_name e.name
  rest ← list_entries left (i + 1) n d
  done (name ∷ rest)

pub ls : Inode → Disk → Outcome (List (List ℕ))
ls i d = do n ← read_disk_inode i d; list_entries (n.size / dirent_sz) 0 n d

unfoldable pub read_at : Inode → ℕ → Buffer → Disk → Outcome (ℕ × Buffer)
read_at i offset buf d = do n ← read_disk_inode i d; Content.read_at n offset buf d

pub write_at : Inode → ℕ → Buffer → Disk → Outcome (ℕ × Disk)
write_at i offset buf d = do
  n ← read_disk_inode i d
  (n', d') ← increase_size i.fs (add_usize offset buf.len % 2 ^ 32) n d
  (size, d'') ← Content.write_at n' offset buf d'
  d₃ ← write_disk_inode i n' d''
  done (size, d₃)

unfoldable pub dealloc_blocks : List ℕ → EasyFileSystem → Disk → Outcome Disk
dealloc_blocks [] fs d = done d
dealloc_blocks (b ∷ bs) fs d = do d' ← dealloc_data fs b d; dealloc_blocks bs fs d'

pub clear : Inode → Disk → Outcome Disk
clear i d = do
  n ← read_disk_inode i d
  (n', v) ← clear_size n d
  assert (length v == total_blocks n.size)
  d' ← dealloc_blocks v i.fs d
  write_disk_inode i n' d'
