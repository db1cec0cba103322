-- ===== src/EasyFs/Bitmap.antt =====
-- easy-fs/src/bitmap.rs, on the blocks that the cache shows.
pub mod Bits
pub mod Alloc
pub mod Dealloc
pub mod Elsewhere
use ch_os.Base.{
  ℕ, zero, suc, ◌+◌, ◌-◌, ◌*◌, ◌/◌, ◌%◌, ◌^◌, ◌<◌, ◌≡◌, Bool, true, false, not, Option, none, some,
  bit_and, bit_or, ◌==◌, ltb, if◌then◌else◌,
}
use ch_os.Base.Word.{trailing_ones}
use ch_os.Base.Outcome.{Outcome, done, panic, assert, ◌>>=◌, ◌>>◌}
use ch_os.EasyFs.Disk.{Disk, block_sz, word, set_word}

abbrev pub block_bits : ℕ
block_bits = block_sz * 8

abbrev pub u64_max : ℕ
u64_max = 2 ^ 64 - 1

pub record Bitmap : Type 0 where
  pub start_block_id : ℕ
  pub blocks : ℕ

unfoldable pub new : ℕ → ℕ → Bitmap
new start_block_id blocks = record { start_block_id = start_block_id; blocks = blocks }

-- (block_pos, bits64_pos, inner_pos)
pub decomposition : ℕ → ℕ × ℕ × ℕ
decomposition bit = (bit / block_bits, bit % block_bits / 64, bit % block_bits % 64)

-- The search in one block: the first word that is not full, and its lowest clear bit; `left` words
-- are left from the index `i` on.
unfoldable pub find_word : (ℕ → ℕ) → ℕ → ℕ → Option (ℕ × ℕ)
find_word words zero i = none
find_word words (suc left) i =
    let later = find_word words left (i + 1) in
    if words i == u64_max then later else some (i, trailing_ones 64 (words i))

-- The loop of `alloc` over the blocks that are left from `block_id` on.
unfoldable pub alloc_from : ℕ → ℕ → ℕ → Disk → Option ℕ × Disk
alloc_from start zero block_id d = (none, d)
alloc_from start (suc left) block_id d = elim (find_word (word d (block_id + start)) 64 0) [
  | some (bits64_pos, inner_pos) ↦ (
    some (block_id * block_bits + bits64_pos * 64 + inner_pos),
    set_word d (block_id + start) bits64_pos
        (bit_or (word d (block_id + start) bits64_pos) (2 ^ inner_pos)),
  )
  | none ↦ alloc_from start left (block_id + 1) d
]

unfoldable pub alloc : Bitmap → Disk → Option ℕ × Disk
unfolding alloc_from
alloc bm d = alloc_from bm.start_block_id bm.blocks 0 d

pub dealloc : Bitmap → ℕ → Disk → Outcome Disk
unfolding decomposition
dealloc bm bit d = do
  let (block_pos, bits64_pos, inner_pos) = decomposition bit
  let b = block_pos + bm.start_block_id
  assert (ltb 0 (bit_and (word d b bits64_pos) (2 ^ inner_pos)))
  done (set_word d b bits64_pos (word d b bits64_pos - 2 ^ inner_pos))

unfoldable pub maximum : Bitmap → ℕ
maximum bm = bm.blocks * block_bits
