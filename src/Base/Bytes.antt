-- ===== src/Base/Bytes.antt =====
-- Little-endian numbers in an array of bytes, given as a function of the offset.
use ch_os.Base.Lists.{update}
use Prim.Native.Nat.{ℕ, zero, suc, ◌+◌, ◌*◌, ◌/◌, ◌%◌, ◌^◌, ◌≤◌, ◌<◌}
use mathlib.Core.Path.{◌≡◌, refl}
use mathlib.Core.Logic.{◌⊎◌}
use native.Mathlib.Nat.{pow-suc}
use native.Mathlib.Omega.{arith}

-- The number of `n` bytes from the offset `o` on.
unfoldable pub read_le : ℕ → (ℕ → ℕ) → ℕ → ℕ
read_le zero bytes o = 0
read_le (suc n) bytes o = bytes o + 256 * read_le n bytes (o + 1)

unfoldable pub write_le : ℕ → (ℕ → ℕ) → ℕ → ℕ → ℕ → ℕ
write_le zero bytes o v = bytes
write_le (suc n) bytes o v = update (write_le n bytes (o + 1) (v / 256)) o (v % 256)

-- A number reads the bytes of its span.
pub read_le-ext :
    (n : ℕ) (bytes bytes' : ℕ → ℕ) (o : ℕ)
    → ((q : ℕ) → o ≤ q → q < o + n → bytes q ≡ bytes' q)
    → read_le n bytes o ≡ read_le n bytes' o
unfolding read_le
read_le-ext zero bytes bytes' o h = refl
read_le-ext (suc n) bytes bytes' o h = omega (
  arith,
  h o (omega arith) (omega arith),
  read_le-ext n bytes bytes' (o + 1) (λ q l u. h q (omega arith) (omega arith)),
)

-- A write changes the bytes of its span only.
pub write_le-outside :
    (n : ℕ) (bytes : ℕ → ℕ) (o v q : ℕ) → (q < o) ⊎ (o + n ≤ q) → write_le n bytes o v q ≡ bytes q
unfolding write_le
write_le-outside zero bytes o v q h = refl
write_le-outside (suc n) bytes o v q h =
    ground (arith, write_le-outside n bytes (o + 1) (v / 256) q)

pub read_le-write_le :
    (n : ℕ) (bytes : ℕ → ℕ) (o v : ℕ) → v < 256 ^ n → read_le n (write_le n bytes o v) o ≡ v
unfolding read_le write_le
read_le-write_le zero bytes o v h = omega arith
read_le-write_le (suc n) bytes o v h =
    let rest = write_le n bytes (o + 1) (v / 256) in
    ground (
      arith,
      read_le-ext n (update rest o (v % 256)) rest (o + 1) (λ q l u. ground arith),
      read_le-write_le n bytes (o + 1) (v / 256) (omega (arith, pow-suc 256 n)),
    )

pub read_le-write_le_apart :
    (n n' : ℕ) (bytes : ℕ → ℕ) (o o' v : ℕ)
    → (o' + n' ≤ o) ⊎ (o + n ≤ o')
    → read_le n' (write_le n bytes o v) o' ≡ read_le n' bytes o'
read_le-write_le_apart n n' bytes o o' v h =
    read_le-ext n' (write_le n bytes o v) bytes o'
      (λ q l u. write_le-outside n bytes o v q (omega arith))

pub write_le-lt :
    (n : ℕ) (bytes : ℕ → ℕ) (o v q : ℕ) → ((p : ℕ) → bytes p < 256) → write_le n bytes o v q < 256
unfolding write_le
write_le-lt zero bytes o v q h = h q
write_le-lt (suc n) bytes o v q h = ground (arith, write_le-lt n bytes (o + 1) (v / 256) q h)

pub read_le-lt :
    (n : ℕ) (bytes : ℕ → ℕ) (o : ℕ) → ((p : ℕ) → bytes p < 256) → read_le n bytes o < 256 ^ n
unfolding read_le
read_le-lt zero bytes o h = omega arith
read_le-lt (suc n) bytes o h = omega (arith, h o, read_le-lt n bytes (o + 1) h, pow-suc 256 n)
