-- ===== src/EasyFs/DiskInode.antt =====
-- easy-fs/src/layout.rs, `DiskInode`: the index of a file's blocks, and reads and writes through it.
-- An inode is passed by value and returned where the code changes it in place.
pub mod Fill
pub mod Grow
pub mod Clear
pub mod Content
use ch_os.Base.{
  ℕ, zero, suc, ◌+◌, ◌-◌, ◌*◌, ◌/◌, ◌%◌, ◌^◌, min, max, Bool, true, false, ◌&&◌, ◌||◌, Option, none,
  some, ◌==◌, ltb, leb, if◌then◌else◌, List, [], ◌∷◌, ◌++◌, length, update,
}
use ch_os.Base.Outcome.{Outcome, done, panic, assert, unwrap, ◌>>=◌, ◌>>◌}
use ch_os.EasyFs.Disk.{Disk, block_sz, index, set_index}
use ch_os.EasyFs.Layout.{
  DiskInodeType, file, directory, inode_direct_count, inode_indirect1_count, inode_indirect2_count,
  indirect1_bound, data_blocks,
}

-- `direct` is the array of 28 block numbers, by index.
pub record DiskInode : Type 0 where
  pub size : ℕ
  pub direct : ℕ → ℕ
  pub indirect1 : ℕ
  pub indirect2 : ℕ
  pub kind : DiskInodeType

unfoldable pub initialize : DiskInodeType → DiskInode
initialize kind = record { size = 0; direct = λ _. 0; indirect1 = 0; indirect2 = 0; kind = kind }

unfoldable pub is_dir : DiskInode → Bool
is_dir n = elim n.kind [ file ↦ false | directory ↦ true ]

-- A read of an `IndirectBlock`, whose index is checked.
abbrev pub indexed : Disk → ℕ → ℕ → Outcome ℕ
indexed d b i = do assert (ltb i inode_indirect1_count); done (index d b i)

unfoldable pub get_block_id : DiskInode → ℕ → Disk → Outcome ℕ
get_block_id n inner_id d =
    if ltb inner_id inode_direct_count
    then done (n.direct inner_id)
    else if ltb inner_id indirect1_bound
    then indexed d n.indirect1 (inner_id - inode_direct_count)
    else (do
      let last = inner_id - indirect1_bound
      indirect1 ← indexed d n.indirect2 (last / inode_indirect1_count)
      indexed d indirect1 (last % inode_indirect1_count))

-- `new_blocks.next().unwrap()`
abbrev pub next_block : List ℕ → Outcome (ℕ × List ℕ)
next_block [] = panic
next_block (b ∷ bs) = done (b, bs)

-- The first loop of `increase_size`, with `left` rounds to go.
pub fill_direct : ℕ → ℕ → (ℕ → ℕ) → List ℕ → Outcome ((ℕ → ℕ) × List ℕ)
fill_direct zero current direct new_blocks = done (direct, new_blocks)
fill_direct (suc left) current direct new_blocks = do
  (b, rest) ← next_block new_blocks
  fill_direct left (current + 1) (update direct current b) rest

-- The second loop, in the block of the first level.
pub fill_indirect1 : ℕ → ℕ → ℕ → Disk → List ℕ → Outcome (Disk × List ℕ)
fill_indirect1 zero current indirect1 d new_blocks = done (d, new_blocks)
fill_indirect1 (suc left) current indirect1 d new_blocks = do
  (b, rest) ← next_block new_blocks
  fill_indirect1 left (current + 1) indirect1 (set_index d indirect1 current b) rest

-- One round of the third loop, at the entry `b0` of the block `a0` of the second level.
pub fill_round : ℕ → ℕ → ℕ → Disk → List ℕ → Outcome (Disk × List ℕ)
fill_round a0 b0 indirect2 d new_blocks = do
  assert (ltb a0 inode_indirect1_count)
  (d', rest) ←
      (if b0 == 0
        then (do (b, rest) ← next_block new_blocks; done (set_index d indirect2 a0 b, rest))
        else done (d, new_blocks))
  (b, rest') ← next_block rest
  done (set_index d' (index d' indirect2 a0) b0 b, rest')

-- The third loop, up to `(a1, b1)`.
pub fill_indirect2 : ℕ → ℕ → ℕ → ℕ → ℕ → ℕ → Disk → List ℕ → Outcome (Disk × List ℕ)
fill_indirect2 zero a1 b1 a0 b0 indirect2 d new_blocks = done (d, new_blocks)
fill_indirect2 (suc fuel) a1 b1 a0 b0 indirect2 d new_blocks =
    elim (ltb a0 a1 || ((a0 == a1) && ltb b0 b1)) [
      | false ↦ done (d, new_blocks)
      | true ↦ do
        (d', rest) ← fill_round a0 b0 indirect2 d new_blocks
        fill_indirect2 fuel a1 b1 (if b0 + 1 == inode_indirect1_count then a0 + 1 else a0)
            (if b0 + 1 == inode_indirect1_count then 0 else b0 + 1) indirect2 d' rest
    ]

-- The rest of `increase_size` beyond the block of the first level, with what is left of
-- `current_blocks` and `total_blocks`.
pub increase_indirect2 : DiskInode → ℕ → ℕ → Disk → List ℕ → Outcome (DiskInode × Disk × List ℕ)
increase_indirect2 n current_blocks total_blocks d new_blocks = do
  (indirect2, new₁) ←
      (if current_blocks == inode_indirect1_count
        then next_block new_blocks
        else done (n.indirect2, new_blocks))
  let current = current_blocks - inode_indirect1_count
  let total = total_blocks - inode_indirect1_count
  (d₁, new₂) ←
      fill_indirect2 (total - current) (total / inode_indirect1_count)
        (total % inode_indirect1_count) (current / inode_indirect1_count)
        (current % inode_indirect1_count) indirect2 d new₁
  done (record n { indirect2 = indirect2 }, d₁, new₂)

-- The rest of `increase_size` beyond the direct numbers.
pub increase_indirect1 : DiskInode → ℕ → ℕ → Disk → List ℕ → Outcome (DiskInode × Disk × List ℕ)
increase_indirect1 n current_blocks total_blocks d new_blocks = do
  (indirect1, new₁) ←
      (if current_blocks == inode_direct_count
        then next_block new_blocks
        else done (n.indirect1, new_blocks))
  let n₁ = record n { indirect1 = indirect1 }
  let current = current_blocks - inode_direct_count
  let total = total_blocks - inode_direct_count
  (d₁, new₂) ← fill_indirect1 (min total inode_indirect1_count - current) current indirect1 d new₁
  if leb total inode_indirect1_count
      then done (n₁, d₁, new₂)
      else increase_indirect2 n₁ (max current (min total inode_indirect1_count)) total d₁ new₂

-- `increase_size`. The last result is what the iterator still holds when it is dropped.
pub increase_size : DiskInode → ℕ → List ℕ → Disk → Outcome (DiskInode × Disk × List ℕ)
increase_size n new_size new_blocks d = do
  let current = data_blocks n.size
  let total = data_blocks new_size
  (direct, new₁) ← fill_direct (min total inode_direct_count - current) current n.direct new_blocks
  let n₁ = record n { size = new_size; direct = direct }
  let current₁ = max current (min total inode_direct_count)
  if leb total inode_direct_count
      then done (n₁, d, new₁)
      else increase_indirect1 n₁ current₁ total d new₁

-- The first `n` numbers of an index block.
pub indices : Disk → ℕ → ℕ → ℕ → List ℕ
indices d b i zero = []
indices d b i (suc n) = index d b i ∷ indices d b (i + 1) n

-- The loop of `clear_size` over the direct numbers: those taken, and the array cleared.
pub clear_direct : ℕ → ℕ → (ℕ → ℕ) → List ℕ × (ℕ → ℕ)
clear_direct zero current direct = ([], direct)
clear_direct (suc left) current direct =
    let (v, direct') = clear_direct left (current + 1) (update direct current 0) in
    (direct current ∷ v, direct')

-- The loop over the full blocks of the second level.
pub clear_full : ℕ → ℕ → ℕ → Disk → List ℕ
unfolding indices
clear_full zero i indirect2 d = []
clear_full (suc n) i indirect2 d =
    (index d indirect2 i ∷ indices d (index d indirect2 i) 0 inode_indirect1_count)
    ++ clear_full n (i + 1) indirect2 d

-- The last part of `clear_size`, with the `data_blocks` that hang under the second level.
pub clear_indirect2 : DiskInode → ℕ → Disk → Outcome (List ℕ)
clear_indirect2 n data_blocks d = do
  assert (leb data_blocks inode_indirect2_count)
  let a1 = data_blocks / inode_indirect1_count
  let b1 = data_blocks % inode_indirect1_count
  done (
      clear_full a1 0 n.indirect2 d
      ++ (if ltb 0 b1
          then index d n.indirect2 a1 ∷ indices d (index d n.indirect2 a1) 0 b1
          else []))

-- `clear_size` reads the index blocks and does not change them.
pub clear_size : DiskInode → Disk → Outcome (DiskInode × List ℕ)
clear_size n d = do
  let blocks = data_blocks n.size
  let (v₁, direct) = clear_direct (min blocks inode_direct_count) 0 n.direct
  let n₁ = record n { size = 0; direct = direct }
  if leb blocks inode_direct_count then done (n₁, v₁) else (do
    let blocks₁ = blocks - inode_direct_count
    let v₂ = v₁ ++ (n.indirect1 ∷ indices d n.indirect1 0 (min blocks₁ inode_indirect1_count))
    let n₂ = record n₁ { indirect1 = 0 }
    if leb blocks₁ inode_indirect1_count then done (n₂, v₂) else (do
      v₃ ← clear_indirect2 n (blocks₁ - inode_indirect1_count) d
      done (record n₂ { indirect2 = 0 }, v₂ ++ (n.indirect2 ∷ v₃))))
