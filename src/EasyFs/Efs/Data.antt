-- ===== src/EasyFs/Efs/Data.antt =====
-- Data blocks: `alloc_data` and `dealloc_data` of easy-fs/src/efs.rs.
use ch_os.Base.{
  ℕ, ◌+◌, ◌-◌, ◌*◌, ◌/◌, ◌%◌, ◌^◌, ◌≤◌, ◌<◌, ◌≡◌, refl, ◌∙◌, ap, arith, Option, none, some, ◌==◌,
  if◌then◌else◌, inl, inr, update, false, Bool-cases, ltb,
}
use ch_os.Base.Outcome.{done, unwrap, ◌>>=◌, Meets, Meets-done}
use ch_os.EasyFs.Disk.{Disk, IsDisk, word}
use ch_os.EasyFs.Bitmap.{Bitmap, maximum}
use ch_os.EasyFs.Bitmap
use ch_os.EasyFs.Bitmap.Bits.{bit_of}
use ch_os.EasyFs.Bitmap.Alloc.{alloc-lowest, alloc-full}
use ch_os.EasyFs.Bitmap.Dealloc.{bit_of-dealloc}
use ch_os.EasyFs.Bitmap.Elsewhere.{dealloc-elsewhere}
use ch_os.EasyFs.Efs.{EasyFileSystem, super_block, alloc_data, dealloc_data}
use ch_os.EasyFs.Efs.Division.{created, create-divides, created-small}

-- Whether a block of the data area is in use.
abbrev pub data_bit : EasyFileSystem → Disk → ℕ → ℕ
data_bit efs d b = bit_of efs.data_bitmap.start_block_id d (b - efs.data_area_start_block)

module _ (efs : EasyFileSystem) (d : Disk) (h : IsDisk d)
    (small : efs.data_area_start_block + maximum efs.data_bitmap ≤ 2 ^ 32) where
  -- Where the numbers of the data blocks fit in 32 bits, `alloc_data` gives a block of the data
  -- area that was free, marks it, and marks no other. It panics only where every bit of the
  -- bitmap is set.
  pub alloc_data-lowest :
      (m : ℕ)
      → m < maximum efs.data_bitmap
      → Meets
          (bit_of efs.data_bitmap.start_block_id d m ≡ 1)
          (λ (b, d').
            (efs.data_area_start_block ≤ b)
            × (b < efs.data_area_start_block + maximum efs.data_bitmap)
            × (data_bit efs d b ≡ 0)
            × IsDisk d'
            × (bit_of efs.data_bitmap.start_block_id d' m ≡ (
                if m + efs.data_area_start_block == b
                then 1
                else bit_of efs.data_bitmap.start_block_id d m)))
          (alloc_data efs d)
  unfolding alloc_data
  alloc_data-lowest m u = from (Bitmap.alloc efs.data_bitmap d) refl
    where
      from :
          (r : Option ℕ × Disk)
          → Bitmap.alloc efs.data_bitmap d ≡ r
          → Meets
              (bit_of efs.data_bitmap.start_block_id d m ≡ 1)
              (λ (b, d').
                (efs.data_area_start_block ≤ b)
                × (b < efs.data_area_start_block + maximum efs.data_bitmap)
                × (data_bit efs d b ≡ 0)
                × IsDisk d'
                × (bit_of efs.data_bitmap.start_block_id d' m ≡ (
                    if m + efs.data_area_start_block == b
                    then 1
                    else bit_of efs.data_bitmap.start_block_id d m)))
              (unwrap r.0 >>= λ n. done ((n % 2 ^ 32 + efs.data_area_start_block) % 2 ^ 32, r.1))
      from (none, d') e = (alloc-full efs.data_bitmap d h m d' e u).1
      from (some n, d') e =
          let (n_lt, clear, disk', changed, lowest) = alloc-lowest efs.data_bitmap d h n m d' e in
          let b_eq : (n % 2 ^ 32 + efs.data_area_start_block) % 2 ^ 32
              ≡ n + efs.data_area_start_block =
            omega arith in
          let back : n + efs.data_area_start_block - efs.data_area_start_block ≡ n = omega arith in
          rw b_eq (omega arith, omega arith, rw back clear, disk', ground arith)

  cleared-IsDisk : (b : ℕ) → IsDisk (update d b (λ o. 0))
  cleared-IsDisk b b' o' = ground (arith, h b' o')

  bit_of-cleared :
      (b m : ℕ)
      → efs.data_bitmap.start_block_id + efs.data_bitmap.blocks ≤ efs.data_area_start_block
      → efs.data_area_start_block ≤ b
      → m < maximum efs.data_bitmap
      → bit_of efs.data_bitmap.start_block_id (update d b (λ o. 0)) m
        ≡ bit_of efs.data_bitmap.start_block_id d m
  unfolding maximum word
  bit_of-cleared b m below low u =
      let other : (m / 4096 + efs.data_bitmap.start_block_id == b) ≡ false = ground arith in
      rw other refl

  -- Where the bitmap of the data lies below the data area, whose numbers fit in 32 bits: a
  -- block of the data area that is in use is given back. It is cleared, its bit is cleared, and
  -- no other bit changes.
  pub dealloc_data-clears :
      (b m o : ℕ)
      → efs.data_bitmap.start_block_id + efs.data_bitmap.blocks ≤ efs.data_area_start_block
      → efs.data_area_start_block ≤ b
      → b < efs.data_area_start_block + maximum efs.data_bitmap
      → m < maximum efs.data_bitmap
      → data_bit efs d b ≡ 1
      → (d' : Disk) × (dealloc_data efs b d ≡ done d')
        × IsDisk d'
        × (d' b o ≡ 0)
        × (bit_of efs.data_bitmap.start_block_id d' m ≡ (
            if m + efs.data_area_start_block == b
            then 0
            else bit_of efs.data_bitmap.start_block_id d m))
  unfolding dealloc_data maximum
  dealloc_data-clears b m o below low high u used =
      let cleared : Disk = update d b (λ o. 0) in
      let n_eq : (b + 2 ^ 32 - efs.data_area_start_block) % 2 ^ 32 ≡ b - efs.data_area_start_block =
        omega arith in
      let still = bit_of-cleared b (b - efs.data_area_start_block) below low (omega arith) in
      let (d', ends, disk', changed) =
        bit_of-dealloc efs.data_bitmap cleared (cleared-IsDisk b) (b - efs.data_area_start_block) m
          (still ∙ used) in
      (
        d',
        ap (λ n. Bitmap.dealloc efs.data_bitmap n cleared) n_eq ∙ ends,
        disk',
        ground (
          arith,
          dealloc-elsewhere efs.data_bitmap cleared d' (b - efs.data_area_start_block) b o ends,
        ),
        ground (arith, changed, bit_of-cleared b m below low u),
      )

-- The bitmap that `create` makes (on a disk as in `create-divides`) can have more bits than the
-- data area has blocks. Once every block of the area is in use, and a bit beyond them is clear,
-- `alloc_data` gives out a block that lies past the last block of the disk.
pub alloc_data-past_end :
    (total ib : ℕ) (d : Disk)
    → IsDisk d
    → 1 + ib + ib * 1024 < total
    → total + 4096 < 2 ^ 32
    → ((m : ℕ)
        → m < (super_block total ib).data_area_blocks
        → bit_of (created total ib).data_bitmap.start_block_id d m ≡ 1)
    → (c : ℕ) → c < maximum (created total ib).data_bitmap
    → bit_of (created total ib).data_bitmap.start_block_id d c ≡ 0
    → (b : ℕ) × (d' : Disk) × (alloc_data (created total ib) d ≡ done (b, d')) × (total ≤ b)
alloc_data-past_end total ib d h fits small used c u clear =
    let efs = created total ib in
    let (one, inodes, bits, start, whole, enough, places) = create-divides total ib fits small in
    let (r, ends, (low, high, free, disk', changed)) =
      Meets-done (alloc_data efs d)
        (alloc_data-lowest efs d h (created-small total ib fits small) c u) (λ set. omega arith) in
    (
      r.0,
      r.1,
      ends,
      elim (Bool-cases
          (ltb (r.0 - efs.data_area_start_block) (super_block total ib).data_area_blocks)) [
            | inl within ↦
                absurd (omega (arith, free, used (r.0 - efs.data_area_start_block) (ground arith)))
            | inr past ↦ ground arith
          ],
    )
