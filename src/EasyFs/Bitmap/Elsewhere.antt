-- ===== src/EasyFs/Bitmap/Elsewhere.antt =====
-- The bitmap changes the blocks of the bitmap only.
use ch_os.Base.{
  ℕ, zero, suc, ◌+◌, ◌-◌, ◌*◌, ◌/◌, ◌%◌, ◌^◌, ◌<◌, ◌≡◌, refl, Option, none, some, arith, bit_or,
  bit_and, ltb, Bool-cases, inl, inr,
}
use ch_os.Base.Outcome.{done}
use ch_os.EasyFs.Disk.{Disk, word, set_word, set_word_other}
use ch_os.EasyFs.Bitmap.{Bitmap, find_word, alloc_from, alloc, dealloc, decomposition, block_bits}

pub dealloc-elsewhere :
    (bm : Bitmap) (d d' : Disk) (n b o : ℕ)
    → dealloc bm n d ≡ done d'
    → bm.start_block_id + n / block_bits < b
    → d' b o ≡ d b o
unfolding dealloc decomposition
dealloc-elsewhere bm d d' n b o e h =
    let w = word d (n / block_bits + bm.start_block_id) (n % block_bits / 64) in
    elim (Bool-cases (ltb 0 (bit_and w (2 ^ (n % block_bits % 64))))) [
      | inl set ↦ ground (
        arith,
        set_word_other d (n / block_bits + bm.start_block_id) (n % block_bits / 64)
            (w - 2 ^ (n % block_bits % 64)) b o,
      )
      | inr clear ↦ ground arith
    ]

abbrev Untouched : Disk → ℕ → ℕ → Option ℕ × Disk → Type 0
Untouched d b o r = r.1 b o ≡ d b o

pub alloc_from-elsewhere :
    (start left k : ℕ) (d : Disk) (b o : ℕ) → b < start → (alloc_from start left k d).1 b o ≡ d b o
unfolding alloc_from
alloc_from-elsewhere start zero k d b o h = refl
alloc_from-elsewhere start (suc left) k d b o h =
    from (find_word (word d (k + start)) 64 0) (alloc_from-elsewhere start left (k + 1) d b o h)
  where
    from :
        (f : Option (ℕ × ℕ))
        → (alloc_from start left (k + 1) d).1 b o ≡ d b o
        → Untouched d b o (elim f [
          | some (bits64_pos, inner_pos) ↦ (
            some (k * block_bits + bits64_pos * 64 + inner_pos),
            set_word d
                (k + start)
                bits64_pos
                (bit_or (word d (k + start) bits64_pos) (2 ^ inner_pos)),
          )
          | none ↦ alloc_from start left (k + 1) d
        ])
    from none later = later
    from (some (p, q)) later =
        set_word_other d (k + start) p (bit_or (word d (k + start) p) (2 ^ q)) b o (ground arith)

pub alloc-elsewhere :
    (bm : Bitmap) (d : Disk) (b o : ℕ) → b < bm.start_block_id → (alloc bm d).1 b o ≡ d b o
unfolding alloc
alloc-elsewhere bm d b o h = alloc_from-elsewhere bm.start_block_id bm.blocks 0 d b o h
