-- ===== src/EasyFs/Bitmap/Bits.antt =====
-- The bits of the bitmap, whose blocks are words of 64 bits.
use ch_os.Base.{ℕ, ◌+◌, ◌*◌, ◌/◌, ◌%◌, ◌^◌, ◌<◌, ◌≡◌, arith, ◌==◌, if◌then◌else◌}
use ch_os.Base.Bits.{bit_at}
use ch_os.EasyFs.Disk.{Disk, word, set_word, word-set_word}
use ch_os.EasyFs.Bitmap.{block_bits}

-- The bit of a number in the bitmap that begins at block `start`.
abbrev pub bit_of : ℕ → Disk → ℕ → ℕ
bit_of start d n = bit_at (word d (n / block_bits + start) (n % block_bits / 64)) (n % 64)

-- A word that differs from the old one in one bit changes that bit of the bitmap.
pub bit_of-set_word :
    (start : ℕ) (d : Disk) (k p q v c n m : ℕ)
    → p < 64
    → q < 64
    → n ≡ k * block_bits + p * 64 + q
    → v < 2 ^ 64
    → bit_at v (m % 64) ≡ (if m % 64 == q then c else bit_at (word d (k + start) p) (m % 64))
    → bit_of start (set_word d (k + start) p v) m ≡ (if m == n then c else bit_of start d m)
bit_of-set_word start d k p q v c n m hp hq e hv h =
    ground
      (arith, word-set_word d (k + start) p v (m / block_bits + start) (m % block_bits / 64) hv)
