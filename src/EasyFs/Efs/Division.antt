-- ===== src/EasyFs/Efs/Division.antt =====
-- How easy-fs/src/efs.rs divides the disk.
use ch_os.Base.{ℕ, ◌+◌, ◌-◌, ◌*◌, ◌^◌, ◌≤◌, ◌<◌, ◌≡◌, refl, arith}
use ch_os.EasyFs.Bitmap.{maximum}
use ch_os.EasyFs.Bitmap
use ch_os.EasyFs.Efs.{
  EasyFileSystem, inode_area_blocks, data_total_blocks, data_bitmap_blocks, super_block,
  file_system, get_disk_inode_pos,
}
use ch_os.EasyFs.Layout.{new_super_block}

pub inode_area_blocks-eq : (ib : ℕ) → ib * 1024 < 2 ^ 32 → inode_area_blocks ib ≡ ib * 1024
unfolding inode_area_blocks maximum Bitmap.new new_super_block
inode_area_blocks-eq ib h = omega arith

pub data_total_blocks-eq :
    (total ib : ℕ)
    → 1 + ib + ib * 1024 ≤ total
    → total < 2 ^ 32
    → data_total_blocks total ib ≡ total - (1 + ib + ib * 1024)
unfolding data_total_blocks
data_total_blocks-eq total ib h k = omega (arith, inode_area_blocks-eq ib (omega arith))

-- The file system that `create` makes on `total` blocks, with `ib` blocks of inode bitmap.
abbrev pub created : ℕ → ℕ → EasyFileSystem
created total ib = file_system ib (inode_area_blocks ib) (data_bitmap_blocks total ib)

module _ (total ib : ℕ) (fits : 1 + ib + ib * 1024 < total) (small : total + 4096 < 2 ^ 32) where
  -- Where more than the inodes fit, and the blocks are fewer than 2^32 - 4096, `create` divides
  -- the disk without a gap or an overlap: block 0, the bitmap of the inodes, the inodes, the
  -- bitmap of the data, and the data up to the last block. Each data block has its bit, and
  -- each inode of the bitmap its place.
  pub create-divides :
      let efs = created total ib in
      let s = super_block total ib in
      (efs.inode_bitmap.start_block_id ≡ 1)
      × (efs.inode_area_start_block ≡ 1 + ib)
      × (efs.data_bitmap.start_block_id ≡ 1 + ib + s.inode_area_blocks)
      × (efs.data_area_start_block ≡ efs.data_bitmap.start_block_id + efs.data_bitmap.blocks)
      × (efs.data_area_start_block + s.data_area_blocks ≡ total)
      × (s.data_area_blocks ≤ maximum efs.data_bitmap)
      × (maximum efs.inode_bitmap ≡ s.inode_area_blocks * 4)
  unfolding super_block file_system data_bitmap_blocks maximum Bitmap.new new_super_block
  create-divides =
      let ia = inode_area_blocks-eq ib (omega arith) in
      let dt = data_total_blocks-eq total ib (omega arith) (omega arith) in
      (
        refl,
        omega arith,
        omega (arith, ia),
        omega (arith, ia, dt),
        omega (arith, ia, dt),
        omega (arith, ia, dt),
        omega (arith, ia),
      )

  -- In a file system as in `create-divides`, each inode of the bitmap lies in the area of the
  -- inodes, within its block.
  pub get_disk_inode_pos-inside :
      (i : ℕ)
      → i < maximum (Bitmap.new 1 ib)
      → let (b, o) = get_disk_inode_pos (created total ib) i in
        (1 + ib ≤ b) × (b < 1 + ib + ib * 1024) × (o + 128 ≤ 512)
  unfolding get_disk_inode_pos file_system maximum Bitmap.new new_super_block
  get_disk_inode_pos-inside i h = (omega arith, omega arith, omega arith)

  -- In a file system as in `create-divides`, two inodes in one block do not share a byte: the
  -- place of the greater one is at least 128 bytes further on.
  pub get_disk_inode_pos-apart :
      (i j : ℕ)
      → i < maximum (Bitmap.new 1 ib)
      → j < i
      → (get_disk_inode_pos (created total ib) i).0 ≡ (get_disk_inode_pos (created total ib) j).0
      → (get_disk_inode_pos (created total ib) j).1 + 128
        ≤ (get_disk_inode_pos (created total ib) i).1
  unfolding get_disk_inode_pos file_system maximum Bitmap.new new_super_block
  get_disk_inode_pos-apart i j h k e = omega arith

-- The numbers of the blocks that the bits of the data stand for fit in 32 bits.
pub created-small :
    (total ib : ℕ)
    → 1 + ib + ib * 1024 < total
    → total + 4096 < 2 ^ 32
    → (created total ib).data_area_start_block + maximum (created total ib).data_bitmap ≤ 2 ^ 32
unfolding file_system data_bitmap_blocks maximum Bitmap.new
created-small total ib fits small = omega (
  arith,
  inode_area_blocks-eq ib (omega arith),
  data_total_blocks-eq total ib (omega arith) (omega arith),
)
