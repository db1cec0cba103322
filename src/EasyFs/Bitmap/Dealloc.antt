-- ===== src/EasyFs/Bitmap/Dealloc.antt =====
-- `dealloc` of the bitmap, on the bits of Bits.
use ch_os.Base.{
  ℕ, ◌+◌, ◌-◌, ◌/◌, ◌%◌, ◌^◌, ◌≡◌, refl, arith, ◌==◌, if◌then◌else◌, Bool-cases, inl, inr, bit_and,
  ltb,
}
use ch_os.Base.Bits.{bit_at, bit_and-two-pow, two-pow_pos}
use ch_os.Base.Word.{bit_at-sub}
use ch_os.Base.Outcome.{done, panic}
use ch_os.EasyFs.Disk.{Disk, IsDisk, word, set_word, word-lt, set_word-IsDisk}
use ch_os.EasyFs.Bitmap.{Bitmap, block_bits, dealloc}
use ch_os.EasyFs.Bitmap.Bits.{bit_of, bit_of-set_word}

-- The test of `dealloc` reads the bit.
tested : (x q : ℕ) → ltb 0 (bit_and x (2 ^ q)) ≡ (bit_at x q == 1)
tested x q = elim (Bool-cases (bit_at x q == 1)) [
  | inl set ↦ rw set (ground (arith, bit_and-two-pow q x, two-pow_pos q))
  | inr clear ↦ rw clear (ground (arith, bit_and-two-pow q x))
]

inner : (n : ℕ) → n % block_bits % 64 ≡ n % 64
inner n = omega arith

module _ (bm : Bitmap) (d : Disk) (h : IsDisk d) where
  -- `dealloc` of a bit that is clear panics: nothing is freed twice.
  pub dealloc-clear_bit : (n : ℕ) → bit_of bm.start_block_id d n ≡ 0 → dealloc bm n d ≡ panic
  unfolding dealloc
  dealloc-clear_bit n e =
      rw
        (
          tested (word d (n / block_bits + bm.start_block_id) (n % block_bits / 64))
              (n % block_bits % 64),
          inner n,
          e,
        )
        refl

  -- `dealloc` of a bit that is set clears it, and changes no other.
  pub bit_of-dealloc :
      (n m : ℕ)
      → bit_of bm.start_block_id d n ≡ 1
      → (d' : Disk) × (dealloc bm n d ≡ done d')
        × IsDisk d'
        × (bit_of bm.start_block_id d' m ≡ (if m == n then 0 else bit_of bm.start_block_id d m))
  unfolding dealloc
  bit_of-dealloc n m e =
      let b = n / block_bits + bm.start_block_id in
      let p = n % block_bits / 64 in
      let x = word d b p in
      (
        set_word d b p (x - 2 ^ (n % 64)),
        rw (tested x (n % block_bits % 64), inner n, e) refl,
        set_word-IsDisk d b p _ h,
        bit_of-set_word bm.start_block_id d (n / block_bits) p (n % 64) _ 0 n m (omega arith)
            (omega arith) (omega arith) (omega (arith, word-lt d b p h))
            (bit_at-sub (n % 64) (m % 64) x e),
      )
