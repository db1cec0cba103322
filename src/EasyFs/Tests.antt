-- ===== src/EasyFs/Tests.antt =====
-- Runs of the file system model at concrete states.
use ch_os.Base.{
  ℕ, ◌+◌, ◌<◌, ◌≡◌, ◌≢◌, refl, true, ◌||◌, List, [], ◌∷◌, none, arith, ◌==◌, leb, update, length,
  if◌then◌else◌,
}
use ch_os.Base.Outcome.{done, panic, Meets}
use ch_os.EasyFs.BlockCache.{
  BlockDevice, Manager, find, get_block_cache, modify_block, block_cache_sync_all,
}
use ch_os.EasyFs.BlockCache.Transparent.{view, IsValid, Kept, Exhausted, get_block_cache-Kept}
use ch_os.EasyFs.BlockCache.Sync.{modify_block-view, view-block_cache_sync_all}
use ch_os.EasyFs.Disk.{Disk, IsDisk, word}
use ch_os.EasyFs.Bitmap.{Bitmap, alloc, alloc_from, find_word, maximum}
use ch_os.Base.Bytes.{read_le}
use ch_os.Base.Word.{trailing_ones}
use ch_os.EasyFs.Bitmap.Bits.{bit_of}
use ch_os.EasyFs.Bitmap.Alloc.{alloc-lowest}
use ch_os.EasyFs.Layout.{
  file, data_blocks, total_blocks, blocks_num_needed, DirEntry, new_entry, entry_name,
}
use ch_os.EasyFs.Layout.Counts.{entry_name-too_long}
use ch_os.EasyFs.DiskInode.{DiskInode, initialize, increase_size, clear_size}
use ch_os.EasyFs.DiskInode.Grow.{increase_size-blocks_num_needed}
use ch_os.EasyFs.DiskInode.Clear.{clear_size-total_blocks}

written : (s : ℕ → ℕ) (b c : ℕ) → update s b c b ≡ c
written s b c = ground arith

written_other : (s : ℕ → ℕ) (b b' c : ℕ) → b ≢ b' → update s b c b' ≡ s b'
written_other s b b' c n = ground arith

-- A device whose blocks hold one number each.
abbrev memory_device : BlockDevice ℕ
memory_device = record {
  State = ℕ → ℕ;
  read_block = λ s b. s b;
  write_block = λ s b c. update s b c;
  read_written = written;
  read_other = written_other;
}

-- Block 3 is cached, changed and held.
abbrev manager : Manager memory_device
manager = record {
  queue = record { cache = 8; block_id = 3; modified = true; holders = 1 } ∷ [];
  device = λ b. b;
}

manager-IsValid : IsValid memory_device manager
unfolding find
manager-IsValid = record {
  distinct = ground arith;
  bounded = omega arith;
  clean = λ b c e k. ground arith;
}

get_block_cache-Kept_example :
    Meets
      (Exhausted memory_device manager × (find 4 manager.queue ≡ none))
      (λ m'. Kept memory_device manager m' × (find 4 m'.queue ≢ none))
      (get_block_cache memory_device 4 manager)
get_block_cache-Kept_example = get_block_cache-Kept memory_device 4 manager manager-IsValid

modify_block-view_example :
    Meets
      (Exhausted memory_device manager × (find 4 manager.queue ≡ none))
      (λ m'.
        IsValid memory_device m'
        × (view memory_device m' 3
            ≡ (if 3 == 4 then view memory_device manager 4 + 1 else view memory_device manager 3)))
      (modify_block memory_device 4 (λ x. x + 1) manager)
modify_block-view_example = modify_block-view memory_device 4 3 (λ x. x + 1) manager manager-IsValid

view-block_cache_sync_all_example :
    (memory_device.read_block (block_cache_sync_all memory_device manager).device 3 ≡ 8)
    × (view memory_device (block_cache_sync_all memory_device manager) 3 ≡ 8)
unfolding find
view-block_cache_sync_all_example =
    view-block_cache_sync_all memory_device 3 manager manager-IsValid

-- A disk on which the bits 0 and 1 of the bitmap in block 1 are set.
abbrev disk : Disk
disk = update (λ b o. 0) 1 (update (λ o. 0) 0 3)

disk-IsDisk : IsDisk disk
disk-IsDisk b o = ground arith

abbrev bitmap : Bitmap
bitmap = record { start_block_id = 1; blocks = 1 }

alloc-lowest_example :
    (2 < maximum bitmap)
    × (bit_of 1 disk 2 ≡ 0)
    × IsDisk (alloc bitmap disk).1
    × (bit_of 1 (alloc bitmap disk).1 1 ≡ (if 1 == 2 then 1 else bit_of 1 disk 1))
    × ((leb 2 1 || (bit_of 1 disk 1 == 1)) ≡ true)
unfolding alloc alloc_from find_word word read_le trailing_ones
alloc-lowest_example = alloc-lowest bitmap disk disk-IsDisk 2 1 (alloc bitmap disk).1 refl

abbrev full_disk : Disk
full_disk = λ b o. 255

full_disk-IsDisk : IsDisk full_disk
full_disk-IsDisk b o = omega arith

alloc-full_disk : alloc bitmap full_disk ≡ (none, full_disk)
unfolding alloc alloc_from find_word word read_le trailing_ones
alloc-full_disk = refl

abbrev long_name : List ℕ
long_name =
    97 ∷ 97 ∷ 97 ∷ 97 ∷ 97 ∷ 97 ∷ 97 ∷ 97 ∷ 97 ∷ 97 ∷ 97 ∷ 97 ∷ 97 ∷ 97 ∷ 97 ∷ 97 ∷ 97 ∷ 97 ∷ 97
    ∷ 97 ∷ 97 ∷ 97 ∷ 97 ∷ 97 ∷ 97 ∷ 97 ∷ 97 ∷ 97 ∷ []

entry_name-too_long_example :
    (e : DirEntry) × (new_entry long_name 7 ≡ done e) × (entry_name e.name ≡ panic)
entry_name-too_long_example = entry_name-too_long long_name 7 refl (ground arith)

increase_size-blocks_num_needed_example :
    (n' : DiskInode) × (d' : Disk) × (increase_size (initialize file) 600 (40 ∷ 41 ∷ []) disk
      ≡ done (n', d', []))
    × (n'.size ≡ 600)
unfolding initialize blocks_num_needed total_blocks data_blocks
increase_size-blocks_num_needed_example =
    increase_size-blocks_num_needed (initialize file) 600 (40 ∷ 41 ∷ []) disk (omega arith)
      (omega arith) refl

clear_size-total_blocks_example :
    (n' : DiskInode) × (v : List ℕ) × (clear_size
        (record { size = 600; direct = λ i. 40 + i; indirect1 = 0; indirect2 = 0; kind = file })
        disk
      ≡ done (n', v))
    × (n'.size ≡ 0)
    × (length v ≡ total_blocks 600)
clear_size-total_blocks_example =
    clear_size-total_blocks
      (record { size = 600; direct = λ i. 40 + i; indirect1 = 0; indirect2 = 0; kind = file }) disk
      (omega arith)
