-- ===== src/EasyFs/DiskInode/Content/Read.antt =====
-- `DiskInode::read_at` against the file as its bytes.
use ch_os.Base.{
  ℕ, zero, suc, ◌+◌, ◌-◌, ◌*◌, ◌/◌, ◌%◌, ◌^◌, ◌≤◌, ◌<◌, ◌≡◌, refl, ap, subst, ◌∙◌, min, ◌&&◌, ltb,
  leb, if◌then◌else◌, arith, Bool-cases, inl, inr, true, false, ◌==◌,
}
use ch_os.Base.Bits.{add_usize}
use ch_os.Base.Outcome.{Outcome, done}
use ch_os.EasyFs.Disk.{Disk, block_sz}
use ch_os.EasyFs.DiskInode.{DiskInode, get_block_id}
use ch_os.EasyFs.DiskInode.Content.{Buffer, copy_bytes, block_end, read_from, read_at}

-- The block with the number `k` in the file is `blk k`, for each of the file's blocks.
abbrev pub Located : DiskInode → Disk → (ℕ → ℕ) → Type 0
Located n d blk = (k : ℕ) → k * block_sz < n.size → get_block_id n k d ≡ done (blk k)

-- The byte of the file at `p`.
abbrev pub file_byte : Disk → (ℕ → ℕ) → ℕ → ℕ
file_byte d blk p = d (blk (p / block_sz)) (p % block_sz)

-- What a buffer holds after `size` bytes of the file from `start` on are put at `at`.
abbrev pub Holds : Disk → (ℕ → ℕ) → Buffer → ℕ → ℕ → ℕ → Buffer → Type 0
Holds d blk buf at start size buf' =
    (buf'.len ≡ buf.len)
    × ((i : ℕ)
        → buf'.byte i ≡ (
            if leb at i && ltb i (at + size)
            then file_byte d blk (start + (i - at))
            else buf.byte i))

-- The bytes of one round lie in one block.
pub file_byte-round :
    (d : Disk) (blk : ℕ → ℕ) (start end j : ℕ)
    → j < block_end start end - start
    → file_byte d blk (start + j) ≡ d (blk (start / block_sz)) (start % block_sz + j)
file_byte-round d blk start end j h =
    let same_block : (start + j) / block_sz ≡ start / block_sz = omega arith in
    let same_place : (start + j) % block_sz ≡ start % block_sz + j = omega arith in
    ap (λ k. d (blk k) ((start + j) % block_sz)) same_block
    ∙ ap (λ o. d (blk (start / block_sz)) o) same_place

module _ (n : DiskInode) (d : Disk) (blk : ℕ → ℕ) (located : Located n d blk)
    (small : n.size < 2 ^ 32) where
  -- What `buf` holds after one round.
  abbrev after_round : ℕ → ℕ → ℕ → ℕ → Buffer → Buffer
  after_round start end block at buf =
      let size = block_end start end - start in
      let byte' = copy_bytes buf.byte at size (λ i. d (blk block) (start % block_sz + i)) in
      record buf { byte = byte' }

  read_from-round :
      (fuel start end block at : ℕ) (buf : Buffer)
      → start < end
      → end ≤ n.size
      → at + (end - start) ≤ buf.len
      → block ≡ start / block_sz
      → read_from (suc fuel) n start end block at buf d ≡ (
          if block_end start end == end
          then done (at + (block_end start end - start), after_round start end block at buf)
          else read_from fuel n
              (block_end start end)
              end
              (block + 1)
              (at + (block_end start end - start))
              (after_round start end block at buf)
              d)
  unfolding read_from
  read_from-round fuel start end block at buf h e l eq =
      let place : block % 2 ^ 32 ≡ block = omega arith in
      let fits : leb (at + (block_end start end - start)) buf.len ≡ true = ground arith in
      let inside : leb (start % block_sz + (block_end start end - start)) block_sz ≡ true =
        ground arith in
      rw (place, fits, located block (omega arith), inside)

  -- A byte of a later round.
  later_byte :
      (start end at i : ℕ)
      → at + (block_end start end - start) ≤ i
      → start < end
      → file_byte d blk (block_end start end + (i - (at + (block_end start end - start))))
        ≡ file_byte d blk (start + (i - at))
  later_byte start end at i h k = ap (λ p. file_byte d blk p) (omega arith)

  read_from-Holds :
      (fuel start end block at : ℕ) (buf : Buffer)
      → start < end
      → end - start < fuel
      → end ≤ n.size
      → at + (end - start) ≤ buf.len
      → block ≡ start / block_sz
      → (buf' : Buffer) × (read_from fuel n start end block at buf d
          ≡ done (at + (end - start), buf'))
        × Holds d blk buf at start (end - start) buf'
  read_from-Holds zero start end block at buf h f e l eq = absurd (omega arith)
  read_from-Holds (suc fuel) start end block at buf h f e l eq =
      let round = read_from-round fuel start end block at buf h e l eq in
      let buf₁ = after_round start end block at buf in
      elim (Bool-cases (block_end start end == end)) [
        | inl last ↦ (
          buf₁,
          round ∙ rw last (ap {B = Outcome (ℕ × Buffer)} (λ k. done (k, buf₁)) (ground arith)),
          (
            refl,
            λ i. ground (
              arith,
              file_byte-round d blk start end (i - at),
              ap (λ k. d (blk k) (start % block_sz + (i - at))) eq,
            ),
          ),
        )
        | inr more ↦
            let (buf', e', held) =
              read_from-Holds fuel (block_end start end) end (block + 1)
                (at + (block_end start end - start)) buf₁ (ground arith) (omega arith) e
                (ground arith) (ground arith) in
            (
              buf',
              round
                  ∙ rw more
                      (e' ∙ ap {B = Outcome (ℕ × Buffer)} (λ k. done (k, buf')) (omega arith)),
              (
                held.0,
                λ i. ground (
                  arith,
                  held.1 i,
                  file_byte-round d blk start end (i - at),
                  ap (λ k. d (blk k) (start % block_sz + (i - at))) eq,
                  later_byte start end at i,
                ),
              ),
            )
      ]

read_at-loop :
    (n : DiskInode) (d : Disk) (offset : ℕ) (buf : Buffer)
    → offset + buf.len < 2 ^ 64
    → leb (min (offset + buf.len) n.size) offset ≡ false
    → read_at n offset buf d
      ≡ read_from
          (suc (min (offset + buf.len) n.size - offset))
          n
          offset
          (min (offset + buf.len) n.size)
          (offset / block_sz)
          0
          buf
          d
unfolding read_at
read_at-loop n d offset buf h inside =
    let sum : add_usize offset buf.len ≡ offset + buf.len = omega arith in rw (sum, inside)

-- `read_at` on a file of less than 2^32 bytes whose blocks can be looked up, at an offset that does
-- not overflow with the buffer's length: it returns how many bytes the file has from the offset
-- on, the buffer's length at most, and puts those bytes at the start of the buffer, whose other
-- bytes stay.
pub read_at-Holds :
    (n : DiskInode) (d : Disk) (blk : ℕ → ℕ) (offset : ℕ) (buf : Buffer)
    → Located n d blk
    → n.size < 2 ^ 32
    → offset + buf.len < 2 ^ 64
    → (buf' : Buffer) × (read_at n offset buf d ≡ done (min buf.len (n.size - offset), buf'))
      × Holds d blk buf 0 offset (min buf.len (n.size - offset)) buf'
unfolding read_at
read_at-Holds n d blk offset buf located small h =
    let end = min (offset + buf.len) n.size in
    let sum : add_usize offset buf.len ≡ offset + buf.len = omega arith in
    let size : end - offset ≡ min buf.len (n.size - offset) = omega arith in
    elim (Bool-cases (leb end offset)) [
      | inl past ↦ (
        buf,
        rw (sum, past) (ap {B = Outcome (ℕ × Buffer)} (λ k. done (k, buf)) (ground arith)),
        (refl, λ i. ground arith),
      )
      | inr inside ↦
          let (buf', e, held) =
            read_from-Holds n d blk located small (suc (end - offset)) offset end
              (offset / block_sz) 0 buf (ground arith) (omega arith) (omega arith) (omega arith)
              refl in
          (
            buf',
            read_at-loop n d offset buf h inside
                ∙ e
                ∙ ap {B = Outcome (ℕ × Buffer)} (λ k. done (k, buf')) (omega arith),
            subst (λ k. Holds d blk buf 0 offset k buf') size held,
          )
    ]
