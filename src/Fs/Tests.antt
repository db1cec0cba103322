-- ===== src/Fs/Tests.antt =====
-- A run of `read_all` on a concrete disk.
use ch_os.Base.{
  zero, suc, ◌+◌, ◌-◌, ◌/◌, ◌%◌, ◌≡◌, refl, max, ◌&&◌, leb, ltb, if◌then◌else◌, arith, false, true,
  ◌==◌,
}
use ch_os.Base.Bytes.{read_le}
use ch_os.Base.Outcome.{done}
use ch_os.EasyFs.Disk.{Disk}
use ch_os.EasyFs.DiskInode.{get_block_id}
use ch_os.EasyFs.DiskInode.Content.Read.{Located}
use ch_os.EasyFs.Vfs.{disk_inode, decode_inode}
use ch_os.Fs.OsInode.{OsInode, read_all}
use ch_os.Fs.OsInode.ReadAll.{file_bytes, read_all-file_bytes}

-- Block 2 holds the inode of a file of 600 bytes in the blocks 40 and 41.
abbrev disk : Disk
disk b o =
    if b == 2
    then (if o == 0
        then 88
        else if o == 1
        then 2
        else if leb 4 o && ltb o 116 && (o % 4 == 0)
        then 40 + (o - 4) / 4
        else 0)
    else (b + o) % 256

abbrev opened : OsInode
opened = record {
  readable = true;
  writable = false;
  offset = 590;
  inode = record {
    block_id = 2;
    block_offset = 0;
    fs = record {
      inode_bitmap = record { start_block_id = 1; blocks = 1 };
      data_bitmap = record { start_block_id = 30; blocks = 1 };
      inode_area_start_block = 2;
      data_area_start_block = 31;
    };
  };
}

opened_size : (disk_inode opened.inode disk).size ≡ 600
unfolding decode_inode read_le
opened_size = refl

opened-Located : Located (disk_inode opened.inode disk) disk (λ k. 40 + k)
unfolding get_block_id decode_inode read_le
opened-Located zero h = refl
opened-Located (suc zero) h = refl
opened-Located (suc (suc k)) h = absurd (omega arith)

read_all-file_bytes_example :
    read_all opened disk
    ≡ done (
      file_bytes disk (λ k. 40 + k) 590 ((disk_inode opened.inode disk).size - 590),
      record opened { offset = max 590 (disk_inode opened.inode disk).size },
    )
read_all-file_bytes_example =
    read_all-file_bytes opened disk (λ k. 40 + k) (omega arith) opened-Located
      (omega (arith, opened_size)) (omega arith)
