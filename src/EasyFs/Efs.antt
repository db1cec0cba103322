-- ===== src/EasyFs/Efs.antt =====
-- easy-fs/src/efs.rs, on the blocks that the cache shows. Block numbers are of 32 bits.
pub mod Division
pub mod Open
pub mod Data
use ch_os.Base.{
  ℕ, zero, suc, ◌+◌, ◌-◌, ◌*◌, ◌/◌, ◌%◌, ◌^◌, Bool, true, false, ◌&&◌, Option, none, some, ◌==◌,
  leb, ltb, if◌then◌else◌, update,
}
use ch_os.Base.Outcome.{Outcome, done, panic, assert, unwrap, ◌>>=◌, ◌>>◌}
use ch_os.Base.Bytes.{read_le, write_le}
use ch_os.EasyFs.Disk.{Disk, block_sz}
use ch_os.EasyFs.Bitmap.{Bitmap, maximum}
use ch_os.EasyFs.Bitmap
use ch_os.EasyFs.Layout.{SuperBlock, new_super_block}
use ch_os.EasyFs.Layout

abbrev pub disk_inode_sz : ℕ
disk_inode_sz = 128

-- `+` and `-` on `u32`.
abbrev pub add_u32 : ℕ → ℕ → ℕ
add_u32 a b = (a + b) % 2 ^ 32

abbrev pub sub_u32 : ℕ → ℕ → ℕ
sub_u32 a b = (a + 2 ^ 32 - b) % 2 ^ 32

pub record EasyFileSystem : Type 0 where
  pub inode_bitmap : Bitmap
  pub data_bitmap : Bitmap
  pub inode_area_start_block : ℕ
  pub data_area_start_block : ℕ

-- The sizes of the areas that `create` computes.
unfoldable pub inode_area_blocks : ℕ → ℕ
inode_area_blocks inode_bitmap_blocks =
    (maximum (Bitmap.new 1 inode_bitmap_blocks) * disk_inode_sz + block_sz - 1) / block_sz % 2 ^ 32

unfoldable pub data_total_blocks : ℕ → ℕ → ℕ
data_total_blocks total inode_bitmap_blocks =
    sub_u32 (sub_u32 total 1) (add_u32 inode_bitmap_blocks (inode_area_blocks inode_bitmap_blocks))

unfoldable pub data_bitmap_blocks : ℕ → ℕ → ℕ
data_bitmap_blocks total inode_bitmap_blocks =
    add_u32 (data_total_blocks total inode_bitmap_blocks) 4096 / 4097

unfoldable pub super_block : ℕ → ℕ → SuperBlock
super_block total ib =
    new_super_block total ib (inode_area_blocks ib) (data_bitmap_blocks total ib)
      (sub_u32 (data_total_blocks total ib) (data_bitmap_blocks total ib))

-- The value that `create` and `open` make of the sizes of the areas.
unfoldable pub file_system : ℕ → ℕ → ℕ → EasyFileSystem
file_system ib ia db = record {
  inode_bitmap = Bitmap.new 1 ib;
  data_bitmap = Bitmap.new (add_u32 1 (add_u32 ib ia)) db;
  inode_area_start_block = add_u32 1 ib;
  data_area_start_block = add_u32 (add_u32 1 (add_u32 ib ia)) db;
}

-- The block and the offset of an inode.
unfoldable pub get_disk_inode_pos : EasyFileSystem → ℕ → ℕ × ℕ
get_disk_inode_pos efs inode_id =
    let inodes_per_block = block_sz / disk_inode_sz in
    (
      add_u32 efs.inode_area_start_block (inode_id / inodes_per_block),
      inode_id % inodes_per_block * disk_inode_sz,
    )

pub get_data_block_id : EasyFileSystem → ℕ → ℕ
get_data_block_id efs data_block_id = add_u32 efs.data_area_start_block data_block_id

pub alloc_inode : EasyFileSystem → Disk → Outcome (ℕ × Disk)
alloc_inode efs d = do
  let (o, d') = Bitmap.alloc efs.inode_bitmap d
  n ← unwrap o
  done (n % 2 ^ 32, d')

pub alloc_data : EasyFileSystem → Disk → Outcome (ℕ × Disk)
alloc_data efs d = do
  let (o, d') = Bitmap.alloc efs.data_bitmap d
  n ← unwrap o
  done (add_u32 (n % 2 ^ 32) efs.data_area_start_block, d')

pub dealloc_data : EasyFileSystem → ℕ → Disk → Outcome Disk
dealloc_data efs block_id d =
    Bitmap.dealloc efs.data_bitmap (sub_u32 block_id efs.data_area_start_block)
      (update d block_id (λ o. 0))

-- The loop of `create` that clears the first `total` blocks.
pub clear_blocks : ℕ → Disk → Disk
clear_blocks total d b o = if ltb b total then 0 else d b o

-- A `SuperBlock` at the start of block 0: six numbers of 32 bits.
pub write_super_block : SuperBlock → Disk → Disk
write_super_block s d = update d 0 (
    write_le 4
      (write_le 4
        (write_le 4
          (write_le 4 (write_le 4 (write_le 4 (d 0) 0 s.magic) 4 s.total_blocks) 8
            s.inode_bitmap_blocks)
          12 s.inode_area_blocks)
        16 s.data_bitmap_blocks)
      20 s.data_area_blocks)

pub read_super_block : Disk → SuperBlock
read_super_block d = record {
  magic = read_le 4 (d 0) 0;
  total_blocks = read_le 4 (d 0) 4;
  inode_bitmap_blocks = read_le 4 (d 0) 8;
  inode_area_blocks = read_le 4 (d 0) 12;
  data_bitmap_blocks = read_le 4 (d 0) 16;
  data_area_blocks = read_le 4 (d 0) 20;
}

-- `DiskInode::initialize` as a directory, in place: 31 zero words, then the byte of the kind.
abbrev pub init_directory : (ℕ → ℕ) → ℕ → ℕ → ℕ
init_directory bytes offset o =
    if leb offset o && ltb o (offset + 124) then 0 else if o == offset + 124 then 1 else bytes o

pub create : ℕ → ℕ → Disk → Outcome (EasyFileSystem × Disk)
create total ib d = do
  let efs = file_system ib (inode_area_blocks ib) (data_bitmap_blocks total ib)
  (n, d₁) ← alloc_inode efs (write_super_block (super_block total ib) (clear_blocks total d))
  assert (n == 0)
  let (block_id, offset) = get_disk_inode_pos efs 0
  done (efs, update d₁ block_id (init_directory (d₁ block_id) offset))

pub open_efs : Disk → Outcome EasyFileSystem
open_efs d = do
  let s = read_super_block d
  assert (Layout.is_valid s)
  done (file_system s.inode_bitmap_blocks s.inode_area_blocks s.data_bitmap_blocks)
