-- ===== src/EasyFs/EfsTests.antt =====
-- Runs of the file system's division and allocation at concrete states: 1037 blocks, of which one
-- is the bitmap of the inodes, 1024 hold inodes, one is the bitmap of the data and ten are data.
use ch_os.Base.{ℕ, ◌+◌, ◌*◌, ◌<◌, ◌≤◌, ◌≡◌, refl, arith, update}
use ch_os.Base.Outcome.{done}
use ch_os.Base.Bytes.{read_le}
use ch_os.EasyFs.Disk.{Disk, IsDisk, word}
use ch_os.EasyFs.Bitmap.{maximum}
use ch_os.EasyFs.Bitmap
use ch_os.EasyFs.Bitmap.Bits.{bit_of}
use ch_os.EasyFs.Layout.{new_super_block}
use ch_os.EasyFs.Efs.{
  EasyFileSystem, super_block, data_bitmap_blocks, data_total_blocks, inode_area_blocks,
  file_system, alloc_data, create, open_efs,
}
use ch_os.EasyFs.Efs.Division.{created, create-divides}
use ch_os.EasyFs.Efs.Open.{open_efs-create}
use ch_os.EasyFs.Efs.Data.{alloc_data-past_end}

abbrev efs : EasyFileSystem
efs = created 1037 1

create-divides_example :
    (efs.inode_bitmap.start_block_id ≡ 1)
    × (efs.inode_area_start_block ≡ 2)
    × (efs.data_bitmap.start_block_id ≡ 2 + (super_block 1037 1).inode_area_blocks)
    × (efs.data_area_start_block ≡ efs.data_bitmap.start_block_id + efs.data_bitmap.blocks)
    × (efs.data_area_start_block + (super_block 1037 1).data_area_blocks ≡ 1037)
    × ((super_block 1037 1).data_area_blocks ≤ maximum efs.data_bitmap)
    × (maximum efs.inode_bitmap ≡ (super_block 1037 1).inode_area_blocks * 4)
create-divides_example = create-divides 1037 1 (omega arith) (omega arith)

abbrev blank : Disk
blank = λ b o. 0

blank-IsDisk : IsDisk blank
blank-IsDisk b o = omega arith

open_efs-create_example :
    (d' : Disk) × (create 1037 1 blank ≡ done (efs, d')) × (open_efs d' ≡ done efs)
open_efs-create_example =
    open_efs-create 1037 1 blank blank-IsDisk (omega arith) (omega arith) (omega arith)

-- A data area of 4096 blocks from block 9 on, with its bitmap in block 8.
abbrev small : EasyFileSystem
small = record {
  inode_bitmap = record { start_block_id = 1; blocks = 1 };
  data_bitmap = record { start_block_id = 8; blocks = 1 };
  inode_area_start_block = 2;
  data_area_start_block = 9;
}

-- Blocks 9 and 10 are in use.
abbrev used : Disk
used = update blank 8 (update (λ o. 0) 0 3)

used-IsDisk : IsDisk used
used-IsDisk b o = ground arith

-- A disk of 1028 blocks has one data block, 1027, whose bit is set here; its bitmap has 4096 bits.
abbrev full_area : Disk
full_area = update blank 1026 (update (λ o. 0) 0 1)

full_area-IsDisk : IsDisk full_area
full_area-IsDisk b o = ground arith

all_used :
    (m : ℕ)
    → m < (super_block 1028 1).data_area_blocks
    → bit_of (created 1028 1).data_bitmap.start_block_id full_area m ≡ 1
unfolding super_block new_super_block data_bitmap_blocks data_total_blocks inode_area_blocks
    file_system maximum Bitmap.new word read_le
all_used m h = let zero_m : m ≡ 0 = omega arith in rw zero_m refl

alloc_data-past_end_example :
    (b : ℕ) × (d' : Disk) × (alloc_data (created 1028 1) full_area ≡ done (b, d')) × (1028 ≤ b)
unfolding super_block new_super_block data_bitmap_blocks data_total_blocks inode_area_blocks
    file_system maximum Bitmap.new word read_le
alloc_data-past_end_example =
    alloc_data-past_end 1028 1 full_area full_area-IsDisk (omega arith) (omega arith) all_used 5
      (omega arith) refl
