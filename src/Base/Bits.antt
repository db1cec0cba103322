-- ===== src/Base/Bits.antt =====
-- Machine words: `usize` wraps at 2 ^ 64, and the bit operations on values that are not known.
mod Digits
use Digits.{bit_and-half, bit_or-half}
use Prim.Native.Nat.{
  ℕ, zero, suc, ◌+◌, ◌-◌, ◌*◌, ◌/◌, ◌%◌, ◌^◌, ◌≤◌, ◌<◌, min, max, bit_and, bit_or,
}
use mathlib.Core.Path.{◌≡◌, refl, ap}
use native.Mathlib.Omega.{arith}
use native.Mathlib.Nat.{pow-suc, one-le-pow, div-div-eq-div-mul, div-add-mod}

-- `usize` addition and subtraction, as a release build computes them.
abbrev pub add_usize : ℕ → ℕ → ℕ
add_usize a b = (a + b) % 2 ^ 64

abbrev pub sub_usize : ℕ → ℕ → ℕ
sub_usize a b = (a + 2 ^ 64 - b) % 2 ^ 64

-- The bit of `x` at place `p`.
abbrev pub bit_at : ℕ → ℕ → ℕ
bit_at x p = x / 2 ^ p % 2

pub two-pow-suc : (p : ℕ) → 2 ^ suc p ≡ 2 * 2 ^ p
two-pow-suc p = omega (arith, pow-suc 2 p)

pub two-pow_pos : (p : ℕ) → 1 ≤ 2 ^ p
two-pow_pos p = one-le-pow p 2 (omega arith)

and-zero_below : (n x : ℕ) → x ≤ n → bit_and x 0 ≡ 0
and-zero_below n zero h = refl
and-zero_below zero (suc x) h = absurd (omega arith)
and-zero_below (suc n) (suc x) h =
    omega (arith, bit_and-half (suc x) 0, and-zero_below n (suc x / 2) (omega arith))

or-zero_below : (n x : ℕ) → x ≤ n → bit_or x 0 ≡ x
or-zero_below n zero h = refl
or-zero_below zero (suc x) h = absurd (omega arith)
or-zero_below (suc n) (suc x) h =
    omega (arith, bit_or-half (suc x) 0, or-zero_below n (suc x / 2) (omega arith))

pub bit_and-zero : (x : ℕ) → bit_and x 0 ≡ 0
bit_and-zero x = and-zero_below x x (omega arith)

pub bit_or-zero : (x : ℕ) → bit_or x 0 ≡ x
bit_or-zero x = or-zero_below x x (omega arith)

pub bit_at-suc : (x p : ℕ) → bit_at x (suc p) ≡ bit_at (x / 2) p
bit_at-suc x p = rw (two-pow-suc p, ← div-div-eq-div-mul x 2 (2 ^ p))

-- An even second number takes no part in the lowest digit.
bit_and-double : (x t : ℕ) → bit_and x (2 * t) ≡ bit_and (x / 2) t * 2
bit_and-double x t = ground (arith, bit_and-half x (2 * t))

bit_or-double : (x t : ℕ) → bit_or x (2 * t) ≡ bit_or (x / 2) t * 2 + x % 2
bit_or-double x t = ground (arith, bit_or-half x (2 * t))

-- `x & (1 << p)` is the bit at its place.
pub bit_and-two-pow : (p x : ℕ) → bit_and x (2 ^ p) ≡ bit_at x p * 2 ^ p
bit_and-two-pow zero x = omega (arith, bit_and-half x 1, bit_and-zero (x / 2))
bit_and-two-pow (suc p) x =
    rw (bit_at-suc x p, two-pow-suc p, bit_and-double x (2 ^ p), bit_and-two-pow p (x / 2))
      (omega arith)

-- `x | (1 << p)` fills the place.
pub bit_or-two-pow : (p x : ℕ) → bit_or x (2 ^ p) ≡ x + (1 - bit_at x p) * 2 ^ p
bit_or-two-pow zero x = omega (arith, bit_or-half x 1, bit_or-zero (x / 2))
bit_or-two-pow (suc p) x =
    rw (bit_at-suc x p, two-pow-suc p, bit_or-double x (2 ^ p), bit_or-two-pow p (x / 2))
      (omega arith)

-- A low mask is a remainder.
pub bit_and-mask : (k x : ℕ) → bit_and x (2 ^ k - 1) ≡ x % 2 ^ k
bit_and-mask zero x = rw bit_and-zero (omega arith)
bit_and-mask (suc k) x = ground (
  arith,
  bit_and-half x (2 ^ suc k - 1),
  two-pow-suc k,
  two-pow_pos k,
  bit_and-mask k (x / 2),
  div-add-mod x (2 ^ suc k),
  div-add-mod (x / 2) (2 ^ k),
  div-div-eq-div-mul x 2 (2 ^ k),
)

-- `(x << k) | r` is a sum where `r` fits below the shift.
pub bit_or-shifted : (k x r : ℕ) → r < 2 ^ k → bit_or (x * 2 ^ k) r ≡ x * 2 ^ k + r
bit_or-shifted zero x r h = let e : r ≡ 0 = omega arith in rw (e, bit_or-zero) (omega arith)
bit_or-shifted (suc k) x r h = ground (
  arith,
  bit_or-half (x * 2 ^ suc k) r,
  two-pow-suc k,
  ap (λ (t : ℕ). x * t) (two-pow-suc k),
  bit_or-shifted k x (r / 2),
)
