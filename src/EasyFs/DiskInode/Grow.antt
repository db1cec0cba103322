-- ===== src/EasyFs/DiskInode/Grow.antt =====
-- What `DiskInode::increase_size` takes of the blocks it is given.
use ch_os.Base.{
  ℕ, ◌+◌, ◌-◌, ◌*◌, ◌/◌, ◌%◌, ◌≤◌, ◌<◌, ◌≡◌, refl, min, max, true, false, arith, ◌==◌, ltb, leb,
  if◌then◌else◌, List, [], length, Bool, Bool-cases, List-cases, inl, inr,
}
use ch_os.Base.Outcome.{done, Meets, Meets->>=, Meets-mono, Meets-done}
use ch_os.EasyFs.Disk.{Disk}
use ch_os.EasyFs.Layout.{data_blocks, blocks_num_needed}
use ch_os.EasyFs.Layout.Counts.{
  blocks_of, blocks_of-closed, data_blocks_mono, data_blocks_bounds, blocks_num_needed_lem,
}
use ch_os.EasyFs.DiskInode.{
  DiskInode, next_block, fill_direct, fill_indirect1, fill_indirect2, increase_indirect1,
  increase_indirect2, increase_size,
}
use ch_os.EasyFs.DiskInode.Fill.{
  fill_direct-takes, fill_indirect1-takes, next_block-takes, fill_from-takes, below2,
}

-- The blocks of the first `k` entries below the first level, with the block of the second level.
below1 : ℕ → ℕ
below1 k = k + (if ltb 128 k then 1 + (k - 128 + 127) / 128 else 0)

-- A block taken where a level of index blocks begins.
first_block-takes :
    (begins : Bool) (i : ℕ) (bs : List ℕ)
    → Meets
        (length bs < (if begins then 1 else 0))
        (λ r. (if begins then 1 else 0) + length r.1 ≡ length bs)
        (if begins then next_block bs else done (i, bs))
first_block-takes true i bs = next_block-takes bs
first_block-takes false i bs = omega arith

increase_indirect2-takes :
    (n : DiskInode) (current total : ℕ) (d : Disk) (bs : List ℕ)
    → 128 ≤ current
    → current ≤ total
    → 128 < total
    → total ≤ 128 + 16384
    → Meets
        (length bs + below1 current < below1 total)
        (λ r. (r.0.size ≡ n.size) × (below1 total + length r.2 ≡ below1 current + length bs))
        (increase_indirect2 n current total d bs)
unfolding increase_indirect2 below1 below2
increase_indirect2-takes n current total d bs low le high lim =
    Meets->>= _ (if current == 128 then next_block bs else done (n.indirect2, bs)) _
      (first_block-takes (current == 128) n.indirect2 bs) (λ few. ground arith)
      (λ r h.
        Meets->>= _
          (fill_indirect2 (total - 128 - (current - 128)) ((total - 128) / 128)
            ((total - 128) % 128) ((current - 128) / 128) ((current - 128) % 128) r.0 d r.1)
          _ (fill_from-takes (current - 128) (total - 128) r.0 d r.1 (omega arith) (omega arith))
          (λ few. ground arith) (λ q g. (refl, ground arith)))

increase_indirect1-takes :
    (n : DiskInode) (current total : ℕ) (d : Disk) (bs : List ℕ)
    → 28 ≤ current
    → current ≤ total
    → 28 < total
    → total ≤ 28 + 128 + 16384
    → Meets
        (length bs + blocks_of current < blocks_of total)
        (λ r. (r.0.size ≡ n.size) × (blocks_of total + length r.2 ≡ blocks_of current + length bs))
        (increase_indirect1 n current total d bs)
unfolding increase_indirect1 below1
increase_indirect1-takes n current total d bs low le high lim =
    let total_blocks = blocks_of-closed total in
    let current_blocks = blocks_of-closed current in
    Meets->>= _ (if current == 28 then next_block bs else done (n.indirect1, bs)) _
      (first_block-takes (current == 28) n.indirect1 bs) (λ few. ground arith)
      (λ r h.
        Meets->>= _
          (fill_indirect1 (min (total - 28) 128 - (current - 28)) (current - 28) r.0 d r.1) _
          (fill_indirect1-takes (min (total - 28) 128 - (current - 28)) (current - 28) r.0 d r.1)
          (λ few. ground arith)
          (λ q g. elim (Bool-cases (leb (total - 28) 128)) [
            | inl short ↦ rw short (refl, ground arith)
            | inr long ↦ rw long (
                let reach : 128 < total - 28 = ground arith in
                Meets-mono _
                  (increase_indirect2 (record n { indirect1 = r.0 })
                    (max (current - 28) (min (total - 28) 128)) (total - 28) q.0 q.1)
                  (increase_indirect2-takes (record n { indirect1 = r.0 })
                    (max (current - 28) (min (total - 28) 128)) (total - 28) q.0 q.1 (omega arith)
                    (omega arith) reach (omega arith))
                  (λ few. ground arith) (λ p t. (t.0, ground arith)))
          ]))

increase_size-takes :
    (n : DiskInode) (new_size : ℕ) (bs : List ℕ) (d : Disk)
    → n.size ≤ new_size
    → new_size ≤ (28 + 128 + 16384) * 512
    → Meets
        (length bs + blocks_of (data_blocks n.size) < blocks_of (data_blocks new_size))
        (λ r.
          (r.0.size ≡ new_size)
          × (blocks_of (data_blocks new_size) + length r.2
              ≡ blocks_of (data_blocks n.size) + length bs))
        (increase_size n new_size bs d)
unfolding increase_size
increase_size-takes n new_size bs d grows lim =
    let current = data_blocks n.size in
    let total = data_blocks new_size in
    let le : data_blocks n.size ≤ data_blocks new_size =
      data_blocks_mono n.size new_size grows (omega arith) in
    let small : data_blocks new_size ≤ 28 + 128 + 16384 =
      omega (arith, data_blocks_bounds new_size (omega arith)) in
    let total_blocks = blocks_of-closed total in
    let current_blocks = blocks_of-closed current in
    Meets->>= _ (fill_direct (min total 28 - current) current n.direct bs) _
      (fill_direct-takes (min total 28 - current) current n.direct bs) (λ few. ground arith)
      (λ r h. elim (Bool-cases (leb total 28)) [
        | inl short ↦ rw short (refl, ground arith)
        | inr long ↦ rw long (
            let reach : 28 < data_blocks new_size = ground arith in
            Meets-mono _
              (increase_indirect1 (record n { size = new_size; direct = r.0 })
                (max current (min total 28)) total d r.1)
              (increase_indirect1-takes (record n { size = new_size; direct = r.0 })
                (max current (min total 28)) total d r.1 (omega arith) (omega arith) reach small)
              (λ few. ground (arith, blocks_of-closed (max current (min total 28))))
              (λ p t. (t.0, ground (arith, blocks_of-closed (max current (min total 28))))))
      ])

-- A file that grows, to at most the largest size the two levels can index, takes from the blocks
-- it is given exactly as many as `blocks_num_needed` counts, and then has the new size: with that
-- many blocks the call ends, and no block is left over.
pub increase_size-blocks_num_needed :
    (n : DiskInode) (new_size : ℕ) (bs : List ℕ) (d : Disk)
    → n.size ≤ new_size
    → new_size ≤ (28 + 128 + 16384) * 512
    → blocks_num_needed n.size new_size ≡ done (length bs)
    → (n' : DiskInode) × (d' : Disk) × (increase_size n new_size bs d ≡ done (n', d', []))
      × (n'.size ≡ new_size)
increase_size-blocks_num_needed n new_size bs d grows lim needed =
    let (k, counted, sum) = blocks_num_needed_lem n.size new_size (omega arith) grows in
    let same : k ≡ length bs = ground arith in
    let (r, ends, takes) =
      Meets-done (increase_size n new_size bs d) (increase_size-takes n new_size bs d grows lim)
        (λ few. omega arith) in
    let none_left : length r.2 ≡ 0 = omega (arith, takes.1) in
    (r.0, r.1, elim (List-cases r.2) [ inl empty ↦ cc | inr (x, xs, more) ↦ ground arith ], takes.0)
