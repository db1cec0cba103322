-- ===== src/EasyFs/DiskInode/Content/Write.antt =====
-- `DiskInode::write_at` against the file as its bytes.
use ch_os.Base.{
  ℕ, zero, suc, ◌+◌, ◌-◌, ◌*◌, ◌/◌, ◌%◌, ◌^◌, ◌≤◌, ◌<◌, ◌≡◌, ◌≢◌, refl, ap, ◌∙◌, subst, ◌&&◌, ltb,
  leb, ◌⊎◌, inl, inr, if◌then◌else◌, arith, Bool-cases, true, ◌==◌, ==-ne, update,
}
use ch_os.Base.Outcome.{Outcome, done}
use ch_os.EasyFs.Disk.{Disk, block_sz, index, index-same}
use ch_os.EasyFs.Layout.{inode_direct_count, inode_indirect1_count, indirect1_bound}
use ch_os.EasyFs.DiskInode.{DiskInode, get_block_id}
use ch_os.EasyFs.DiskInode.Content.{Buffer, copy_bytes, block_end, write_from}
use ch_os.EasyFs.DiskInode.Content.Read.{Located, file_byte}

-- The index blocks that a file of the inode's size uses.
abbrev pub IsIndex : DiskInode → Disk → ℕ → Type 0
IsIndex n d b =
    ((inode_direct_count * block_sz < n.size) × (b ≡ n.indirect1))
    ⊎ ((indirect1_bound * block_sz < n.size) × (b ≡ n.indirect2))
    ⊎ ((i : ℕ) × ((indirect1_bound + i * inode_indirect1_count) * block_sz < n.size)
        × (b ≡ index d n.indirect2 i))

-- The index blocks hold the same bytes.
abbrev pub SameIndex : DiskInode → Disk → Disk → Type 0
SameIndex n d d' = (b : ℕ) → IsIndex n d b → d' b ≡ d b

-- A look-up reads the index blocks only.
pub get_block_id-same :
    (n : DiskInode) (d d' : Disk) (k : ℕ)
    → SameIndex n d d'
    → k * block_sz < n.size
    → get_block_id n k d' ≡ get_block_id n k d
unfolding get_block_id
get_block_id-same n d d' k same h = elim (Bool-cases (ltb k inode_direct_count)) [
  | inl near ↦ rw near refl
  | inr beyond ↦ elim (Bool-cases (ltb k indirect1_bound)) [
    | inl one ↦
        rw
          (
            beyond,
            one,
            index-same d d' n.indirect1 (k - inode_direct_count)
                (same n.indirect1 (inl (ground arith, refl))),
          )
          refl
    | inr two ↦
        let last = k - indirect1_bound in
        let i = last / inode_indirect1_count in
        let first : index d' n.indirect2 i ≡ index d n.indirect2 i =
          index-same d d' n.indirect2 i (same n.indirect2 (inr (inl (ground arith, refl)))) in
        elim (Bool-cases (ltb i inode_indirect1_count)) [
          | inl valid ↦
              rw
                (
                  beyond,
                  two,
                  first,
                  valid,
                  index-same d d' (index d n.indirect2 i) (last % inode_indirect1_count)
                      (same (index d n.indirect2 i) (inr (inr (i, ground arith, refl)))),
                )
                refl
          | inr out ↦ rw (beyond, two, first, out) refl
        ]
  ]
]

IsIndex-same :
    (n : DiskInode) (d d' : Disk) (b : ℕ) → SameIndex n d d' → IsIndex n d' b → IsIndex n d b
IsIndex-same n d d' b same (inl one) = inl one
IsIndex-same n d d' b same (inr (inl two)) = inr (inl two)
IsIndex-same n d d' b same (inr (inr (i, h, e))) = inr (
    inr
      (i, h, e ∙ index-same d d' n.indirect2 i (same n.indirect2 (inr (inl (omega arith, refl))))))

-- The blocks of a file are known, differ from each other, and are no index blocks of it.
pub record Laid (n : DiskInode) (d : Disk) (blk : ℕ → ℕ) : Type 0 where
  pub located : Located n d blk
  pub apart : (k : ℕ) → k * block_sz < n.size → ¬ IsIndex n d (blk k)
  pub injective : (j k : ℕ) → j * block_sz < n.size → k * block_sz < n.size → blk j ≡ blk k → j ≡ k

module _ (n : DiskInode) (blk : ℕ → ℕ) (small : n.size < 2 ^ 32) where
  -- What a write to a block of the file keeps.
  Laid-update :
      (d : Disk) (k : ℕ) (bytes : ℕ → ℕ)
      → k * block_sz < n.size
      → Laid n d blk
      → Laid n (update d (blk k) bytes) blk
  Laid-update d k bytes h l =
      let d' = update d (blk k) bytes in
      let same : SameIndex n d d' =
        λ b i. rw (==-ne b (blk k) (λ e. l.apart k h (subst (λ c. IsIndex n d c) e i))) refl in
      record {
        located = λ j g. get_block_id-same n d d' j same g ∙ l.located j g;
        apart = λ j g i. l.apart j g (IsIndex-same n d d' (blk j) same i);
        injective = l.injective;
      }

  -- The disk after one round.
  abbrev after_round : ℕ → ℕ → ℕ → ℕ → Buffer → Disk → Disk
  after_round start end block at buf d = update d (blk block) (
      copy_bytes (d (blk block)) (start % block_sz) (block_end start end - start)
        (λ i. buf.byte (at + i)))

  write_from-round :
      (fuel start end block at : ℕ) (buf : Buffer) (d : Disk)
      → Located n d blk
      → start < end
      → end ≤ n.size
      → at + (end - start) ≤ buf.len
      → block ≡ start / block_sz
      → write_from (suc fuel) n start end block at buf d ≡ (
          if block_end start end == end
          then done (at + (block_end start end - start), after_round start end block at buf d)
          else write_from fuel n
              (block_end start end)
              end
              (block + 1)
              (at + (block_end start end - start))
              buf
              (after_round start end block at buf d))
  unfolding write_from
  write_from-round fuel start end block at buf d located h e l eq =
      let place : block % 2 ^ 32 ≡ block = omega arith in
      let fits : leb (at + (block_end start end - start)) buf.len ≡ true = ground arith in
      let inside : leb (start % block_sz + (block_end start end - start)) block_sz ≡ true =
        ground arith in
      rw (place, fits, located block (omega arith), inside)

  -- The bytes of the file after one round.
  file_byte-after_round :
      (start end block at : ℕ) (buf : Buffer) (d : Disk)
      → Laid n d blk
      → start < end
      → end ≤ n.size
      → block ≡ start / block_sz
      → (p : ℕ) → p < n.size
      → file_byte (after_round start end block at buf d) blk p ≡ (
          if leb start p && ltb p (block_end start end)
          then buf.byte (at + (p - start))
          else file_byte d blk p)
  file_byte-after_round start end block at buf d l h e eq p g =
      elim (Bool-cases (p / block_sz == block)) [
        | inl inside ↦
            let same : p / block_sz ≡ block = ground arith in
            let moved : start ≤ p
                → buf.byte (at + (p % block_sz - start % block_sz)) ≡ buf.byte (at + (p - start)) =
              λ c. ap (λ i. buf.byte (at + i)) (omega arith) in
            ground (arith, ap blk same, ap (λ k. d (blk k) (p % block_sz)) same, moved)
        | inr outside ↦ ground (arith, l.injective (p / block_sz) block (omega arith) (omega arith))
      ]

  -- What is left by writing `buf` from `at` on to the bytes of the file from `start` to `end`.
  pub record Written (start end at : ℕ) (buf : Buffer) (d d' : Disk) : Type 0 where
    pub laid : Laid n d' blk
    pub bytes :
        (p : ℕ)
        → p < n.size
        → file_byte d' blk p
          ≡ (if leb start p && ltb p end then buf.byte (at + (p - start)) else file_byte d blk p)
    pub others : (b : ℕ) → ((k : ℕ) → k * block_sz < n.size → b ≢ blk k) → d' b ≡ d b

  Written-round :
      (start end block at : ℕ) (buf : Buffer) (d : Disk)
      → Laid n d blk
      → start < end
      → end ≤ n.size
      → block ≡ start / block_sz
      → Written start (block_end start end) at buf d (after_round start end block at buf d)
  Written-round start end block at buf d l h e eq = record {
    laid = Laid-update d block _ (omega arith) l;
    bytes = λ p g. file_byte-after_round start end block at buf d l h e eq p g;
    others = λ b apart. rw (==-ne b (blk block) (apart block (omega arith))) refl;
  }

  later_byte :
      (start end at p : ℕ) (buf : Buffer)
      → start < end
      → block_end start end ≤ p
      → buf.byte (at + (block_end start end - start) + (p - block_end start end))
        ≡ buf.byte (at + (p - start))
  later_byte start end at p buf h k = ap (λ i. buf.byte i) (omega arith)

  pub write_from-Written :
      (fuel start end block at : ℕ) (buf : Buffer) (d : Disk)
      → Laid n d blk
      → start < end
      → end - start < fuel
      → end ≤ n.size
      → at + (end - start) ≤ buf.len
      → block ≡ start / block_sz
      → (d' : Disk) × (write_from fuel n start end block at buf d ≡ done (at + (end - start), d'))
        × Written start end at buf d d'
  write_from-Written zero start end block at buf d laid h f e l eq = absurd (omega arith)
  write_from-Written (suc fuel) start end block at buf d laid h f e l eq =
      let round = write_from-round fuel start end block at buf d laid.located h e l eq in
      let d₁ = after_round start end block at buf d in
      let w = Written-round start end block at buf d laid h e eq in
      elim (Bool-cases (block_end start end == end)) [
        | inl last ↦
            let same : block_end start end ≡ end = ground arith in
            (
              d₁,
              round ∙ rw last (ap {B = Outcome (ℕ × Disk)} (λ k. done (k, d₁)) (omega arith)),
              subst (λ k. Written start k at buf d d₁) same w,
            )
        | inr more ↦
            let (d', e', w') =
              write_from-Written fuel (block_end start end) end (block + 1)
                (at + (block_end start end - start)) buf d₁ w.laid (ground arith) (omega arith) e
                (ground arith) (ground arith) in
            (
              d',
              round ∙ rw more (e' ∙ ap {B = Outcome (ℕ × Disk)} (λ k. done (k, d')) (omega arith)),
              record {
                laid = w'.laid;
                bytes =
                    λ p g. ground (arith, w.bytes p g, w'.bytes p g, later_byte start end at p buf);
                others = λ b apart. w'.others b apart ∙ w.others b apart;
              },
            )
      ]
