-- ===== src/EasyFs/Layout.antt =====
-- easy-fs/src/layout.rs: the super block, the kinds of inode, how many blocks a file takes, and
-- directory entries.
pub mod Counts
use ch_os.Base.{
  ℕ, zero, suc, ◌+◌, ◌-◌, ◌*◌, ◌/◌, ◌%◌, ◌^◌, Bool, true, false, Option, none, some, ◌==◌, ltb, leb,
  if◌then◌else◌, List, [], ◌∷◌, ◌++◌, length,
}
use ch_os.Base.Utf8.{is_utf8}
use ch_os.Base.Outcome.{Outcome, done, panic, assert, ◌>>=◌, ◌>>◌}
use ch_os.EasyFs.Disk.{block_sz}

abbrev pub efs_magic : ℕ
efs_magic = 0x3b800001

abbrev pub inode_direct_count : ℕ
inode_direct_count = 28

abbrev pub name_length_limit : ℕ
name_length_limit = 27

abbrev pub inode_indirect1_count : ℕ
inode_indirect1_count = block_sz / 4

abbrev pub inode_indirect2_count : ℕ
inode_indirect2_count = inode_indirect1_count * inode_indirect1_count

abbrev pub indirect1_bound : ℕ
indirect1_bound = inode_direct_count + inode_indirect1_count

pub record SuperBlock : Type 0 where
  pub magic : ℕ
  pub total_blocks : ℕ
  pub inode_bitmap_blocks : ℕ
  pub inode_area_blocks : ℕ
  pub data_bitmap_blocks : ℕ
  pub data_area_blocks : ℕ

-- `SuperBlock::initialize` and `is_valid`
unfoldable pub new_super_block : ℕ → ℕ → ℕ → ℕ → ℕ → SuperBlock
new_super_block total ib ia db da = record {
  magic = efs_magic;
  total_blocks = total;
  inode_bitmap_blocks = ib;
  inode_area_blocks = ia;
  data_bitmap_blocks = db;
  data_area_blocks = da;
}

unfoldable pub is_valid : SuperBlock → Bool
is_valid s = s.magic == efs_magic

pub data DiskInodeType : Type 0 where
  file directory : DiskInodeType

-- `_data_blocks`, in `u32`.
unfoldable pub data_blocks : ℕ → ℕ
data_blocks size = (size + block_sz + 2 ^ 32 - 1) % 2 ^ 32 / block_sz

-- `DiskInode::total_blocks`
unfoldable pub total_blocks : ℕ → ℕ
total_blocks size =
    let n = data_blocks size in
    (n
      + (if ltb inode_direct_count n then 1 else 0)
      + (if ltb indirect1_bound n
          then 1 + (n - indirect1_bound + inode_indirect1_count - 1) / inode_indirect1_count
          else 0))
    % 2 ^ 32

-- `DiskInode::blocks_num_needed`, from the size that the inode has.
unfoldable pub blocks_num_needed : ℕ → ℕ → Outcome ℕ
blocks_num_needed size new_size = do
  assert (leb size new_size)
  done ((total_blocks new_size + 2 ^ 32 - total_blocks size) % 2 ^ 32)

-- A directory entry of 32 bytes: 28 of the name, ended by a zero, and the number of an inode.
abbrev pub dirent_sz : ℕ
dirent_sz = 32

pub record DirEntry : Type 0 where
  pub name : List ℕ
  pub inode_number : ℕ

zeros : ℕ → List ℕ
zeros zero = []
zeros (suc n) = 0 ∷ zeros n

pub empty_entry : DirEntry
unfolding zeros
empty_entry = record { name = zeros (name_length_limit + 1); inode_number = 0 }

-- `DirEntry::new`: the slice `bytes[..name.len()]` panics where the name is longer than the array.
pub new_entry : List ℕ → ℕ → Outcome DirEntry
unfolding zeros
new_entry name inode_number = do
  assert (leb (length name) (name_length_limit + 1))
  done (record {
    name = name ++ zeros (name_length_limit + 1 - length name);
    inode_number = inode_number;
  })

-- The bytes before the first zero; without one the index runs out of the array.
unfoldable pub name_bytes : List ℕ → Outcome (List ℕ)
name_bytes [] = panic
name_bytes (c ∷ cs) =
    let rest = (do n ← name_bytes cs; done (c ∷ n)) in if c == 0 then done [] else rest

-- `DirEntry::name`
unfoldable pub entry_name : List ℕ → Outcome (List ℕ)
entry_name name = do bytes ← name_bytes name; assert (is_utf8 bytes); done bytes
