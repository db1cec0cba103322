-- ===== src/EasyFs/Layout/Counts.antt =====
-- How many blocks a file takes, data and index blocks together, against a count block by block.
use ch_os.Base.{
  ℕ, zero, suc, ◌+◌, ◌-◌, ◌*◌, ◌/◌, ◌%◌, ◌^◌, ◌≤◌, ◌<◌, ◌≡◌, true, ◌≢◌, refl, arith, ◌==◌, ltb, leb,
  if◌then◌else◌, List, [], ◌∷◌, ◌++◌, length, All, Bool-cases, inl, inr, ==-ne,
}
use ch_os.Base.Utf8.{is_utf8}
use ch_os.Base.Outcome.{done, panic}
use ch_os.EasyFs.Layout.{
  data_blocks, total_blocks, blocks_num_needed, new_entry, name_bytes, entry_name, zeros,
  inode_direct_count, indirect1_bound, inode_indirect1_count, DirEntry,
}

-- The index blocks that come with the data block `k`, when a file grows to hold it: the block of
-- the first level, the block of the second level, and one below the second level.
abbrev pub index_blocks : ℕ → ℕ
index_blocks k =
    (if k == inode_direct_count then 1 else 0)
    + (if k == indirect1_bound then 1 else 0)
    + (if leb indirect1_bound k
        then (if (k - indirect1_bound) % inode_indirect1_count == 0 then 1 else 0)
        else 0)

-- All blocks of a file of `n` data blocks.
pub blocks_of : ℕ → ℕ
blocks_of zero = 0
blocks_of (suc n) = blocks_of n + 1 + index_blocks n

pub data_blocks_bounds :
    (size : ℕ)
    → size + 511 < 2 ^ 32
    → (size ≤ data_blocks size * 512) × (data_blocks size * 512 < size + 512)
unfolding data_blocks
data_blocks_bounds size h = omega arith

pub blocks_of-closed :
    (n : ℕ)
    → blocks_of n
      ≡ n
        + (if ltb inode_direct_count n then 1 else 0)
        + (if ltb indirect1_bound n
            then 1 + (n - indirect1_bound + inode_indirect1_count - 1) / inode_indirect1_count
            else 0)
unfolding blocks_of
blocks_of-closed zero = refl
blocks_of-closed (suc n) = ground (arith, blocks_of-closed n)

-- `total_blocks` counts every block of the file: those that a file of as many data blocks takes
-- when it is grown block by block.
pub total_blocks-blocks_of :
    (size : ℕ) → size + 511 < 2 ^ 32 → total_blocks size ≡ blocks_of (data_blocks size)
unfolding total_blocks
total_blocks-blocks_of size h =
    ground (arith, blocks_of-closed (data_blocks size), data_blocks_bounds size h)

pub blocks_of_mono : (n m : ℕ) → n ≤ m → blocks_of n ≤ blocks_of m
unfolding blocks_of
blocks_of_mono n zero h = ground arith
blocks_of_mono n (suc m) h = elim (Bool-cases (n == suc m)) [
  | inl same ↦ ground arith
  | inr less ↦ ground (arith, blocks_of_mono n m)
]

pub blocks_of-bound : (n : ℕ) → blocks_of n ≤ n + n + 2
unfolding blocks_of
blocks_of-bound n = ground (arith, blocks_of-closed n)

pub data_blocks_mono : (s t : ℕ) → s ≤ t → t + 511 < 2 ^ 32 → data_blocks s ≤ data_blocks t
unfolding data_blocks
data_blocks_mono s t h k = omega arith

-- A file that grows, to a size below 2^32 - 511, needs as many blocks as a file of the new size
-- has more than one of the old size, data and index blocks together.
pub blocks_num_needed_lem :
    (size new_size : ℕ)
    → new_size + 511 < 2 ^ 32
    → size ≤ new_size
    → (n : ℕ) × (blocks_num_needed size new_size ≡ done n)
      × (blocks_of (data_blocks size) + n ≡ blocks_of (data_blocks new_size))
unfolding blocks_num_needed
blocks_num_needed_lem size new_size h k = (
  blocks_of (data_blocks new_size) - blocks_of (data_blocks size),
  ground (
    arith,
    total_blocks-blocks_of size,
    total_blocks-blocks_of new_size,
    blocks_of_mono (data_blocks size) (data_blocks new_size),
    data_blocks_mono size new_size,
    data_blocks_bounds new_size,
    blocks_of-bound (data_blocks new_size),
  ),
  omega (
    arith,
    blocks_of_mono (data_blocks size) (data_blocks new_size) (data_blocks_mono size new_size k h),
  ),
)

name_bytes-append_zeros :
    (name : List ℕ) (r : ℕ) → All (λ c. c ≢ 0) name → name_bytes (name ++ zeros (suc r)) ≡ done name
unfolding name_bytes zeros
name_bytes-append_zeros [] r nz = refl
name_bytes-append_zeros (c ∷ cs) r nz = rw (==-ne c 0 nz.0, name_bytes-append_zeros cs r nz.1) refl

name_bytes-no_zero : (name : List ℕ) → All (λ c. c ≢ 0) name → name_bytes (name ++ []) ≡ panic
unfolding name_bytes
name_bytes-no_zero [] nz = refl
name_bytes-no_zero (c ∷ cs) nz = rw (==-ne c 0 nz.0, name_bytes-no_zero cs nz.1) refl

-- An entry is made of a name of at most 27 bytes, none of them zero and all together UTF-8, and
-- gives it back.
pub entry_name-new_entry :
    (name : List ℕ) (i : ℕ)
    → length name ≤ 27
    → All (λ c. c ≢ 0) name
    → is_utf8 name ≡ true
    → (e : DirEntry) × (new_entry name i ≡ done e)
      × (entry_name e.name ≡ done name)
      × (e.inode_number ≡ i)
unfolding new_entry entry_name
entry_name-new_entry name i h nz utf8 = (
  record { name = name ++ zeros (28 - length name); inode_number = i },
  ground arith,
  (let e : 28 - length name ≡ suc (27 - length name) = omega arith in
      rw (e, name_bytes-append_zeros name (27 - length name) nz, utf8) refl),
  refl,
)

-- An entry is also made of a name of 28 bytes, none of them zero, one byte more than the limit;
-- reading that name panics.
pub entry_name-too_long :
    (name : List ℕ) (i : ℕ)
    → length name ≡ 28
    → All (λ c. c ≢ 0) name
    → (e : DirEntry) × (new_entry name i ≡ done e) × (entry_name e.name ≡ panic)
unfolding new_entry zeros entry_name
entry_name-too_long name i h nz = (
  record { name = name ++ zeros (28 - length name); inode_number = i },
  ground arith,
  rw (h, name_bytes-no_zero name nz) refl,
)
