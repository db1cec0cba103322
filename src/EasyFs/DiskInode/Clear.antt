-- ===== src/EasyFs/DiskInode/Clear.antt =====
-- What `DiskInode::clear_size` returns to be deallocated.
use ch_os.Base.{
  ℕ, zero, suc, ◌+◌, ◌-◌, ◌*◌, ◌/◌, ◌%◌, ◌≤◌, ◌≡◌, refl, min, true, arith, ltb, leb, List, [], ◌∷◌,
  ◌++◌, length, length-append, Bool-cases, inl, inr, update,
}
use ch_os.Base.Outcome.{done, Meets, Meets->>=, Meets-done}
use ch_os.EasyFs.Disk.{Disk, index}
use ch_os.EasyFs.Layout.{data_blocks, total_blocks}
use ch_os.EasyFs.Layout.Counts.{
  blocks_of, blocks_of-closed, data_blocks_bounds, total_blocks-blocks_of,
}
use ch_os.EasyFs.DiskInode.{
  DiskInode, indices, clear_direct, clear_full, clear_indirect2, clear_size,
}

length-indices : (d : Disk) (b i n : ℕ) → length (indices d b i n) ≡ n
unfolding indices
length-indices d b i zero = refl
length-indices d b i (suc n) = ground (arith, length-indices d b (i + 1) n)

length-clear_direct : (n i : ℕ) (direct : ℕ → ℕ) → length (clear_direct n i direct).0 ≡ n
unfolding clear_direct
length-clear_direct zero i direct = refl
length-clear_direct (suc n) i direct =
    ground (arith, length-clear_direct n (i + 1) (update direct i 0))

length-clear_full : (n i b : ℕ) (d : Disk) → length (clear_full n i b d) ≡ n * 129
unfolding clear_full
length-clear_full zero i b d = refl
length-clear_full (suc n) i b d = ground (
  arith,
  length-append (index d b i ∷ indices d (index d b i) 0 128) (clear_full n (i + 1) b d),
  length-indices d (index d b i) 0 128,
  length-clear_full n (i + 1) b d,
)

clear_indirect2-count :
    (n : DiskInode) (k : ℕ) (d : Disk)
    → k ≤ 16384
    → Meets (1 ≤ 0) (λ v. length v ≡ k + (k + 127) / 128) (clear_indirect2 n k d)
unfolding clear_indirect2
clear_indirect2-count n k d h =
    let fits : leb k 16384 ≡ true = ground arith in
    rw fits (elim (Bool-cases (ltb 0 (k % 128))) [
      | inl part ↦ rw part (
          ground (
            arith,
            length-append (clear_full (k / 128) 0 n.indirect2 d) (
                index d n.indirect2 (k / 128)
                ∷ indices d (index d n.indirect2 (k / 128)) 0 (k % 128)),
            length-clear_full (k / 128) 0 n.indirect2 d,
            length-indices d (index d n.indirect2 (k / 128)) 0 (k % 128),
          ))
      | inr full ↦ rw full (
          ground (
            arith,
            length-append (clear_full (k / 128) 0 n.indirect2 d) [],
            length-clear_full (k / 128) 0 n.indirect2 d,
          ))
    ])

clear_size-count :
    (n : DiskInode) (d : Disk)
    → n.size ≤ (28 + 128 + 16384) * 512
    → Meets
        (1 ≤ 0)
        (λ r. (r.0.size ≡ 0) × (length r.1 ≡ blocks_of (data_blocks n.size)))
        (clear_size n d)
unfolding clear_size
clear_size-count n d lim =
    let blocks = data_blocks n.size in
    let small = data_blocks_bounds n.size (omega arith) in
    let closed = blocks_of-closed (data_blocks n.size) in
    let direct = length-clear_direct (min blocks 28) 0 n.direct in
    let v₁ = (clear_direct (min blocks 28) 0 n.direct).0 in
    let first = length-indices d n.indirect1 0 (min (blocks - 28) 128) in
    let v₂ = n.indirect1 ∷ indices d n.indirect1 0 (min (blocks - 28) 128) in
    elim (Bool-cases (leb blocks 28)) [
      | inl short ↦ rw short (refl, ground arith)
      | inr long ↦ rw long (elim (Bool-cases (leb (blocks - 28) 128)) [
        | inl short ↦ rw short (refl, ground (arith, length-append v₁ v₂))
        | inr reach ↦ rw reach (
            Meets->>= _ (clear_indirect2 n (blocks - 28 - 128) d) _
              (clear_indirect2-count n (blocks - 28 - 128) d (omega arith)) (λ few. few)
              (λ v₃ h. (
                refl,
                ground (arith, length-append (v₁ ++ v₂) (n.indirect2 ∷ v₃), length-append v₁ v₂),
              )))
      ])
    ]

-- A file of at most the largest size that the two levels can index is emptied: its size is then 0,
-- and as many block numbers are returned as `total_blocks` counts, index blocks included.
pub clear_size-total_blocks :
    (n : DiskInode) (d : Disk)
    → n.size ≤ (28 + 128 + 16384) * 512
    → (n' : DiskInode) × (v : List ℕ) × (clear_size n d ≡ done (n', v))
      × (n'.size ≡ 0)
      × (length v ≡ total_blocks n.size)
clear_size-total_blocks n d lim =
    let (r, ends, (emptied, counted)) =
      Meets-done (clear_size n d) (clear_size-count n d lim) (λ few. omega arith) in
    (r.0, r.1, ends, emptied, ground (arith, total_blocks-blocks_of n.size (omega arith)))
