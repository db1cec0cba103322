-- ===== src/Base/Bits/Digits.antt =====
-- The native `&` and `|` are recursions on binary digits with fuel; here is one digit without fuel.
use Prim.Native.Nat.{
  ℕ, zero, suc, ◌+◌, ◌*◌, ◌/◌, ◌%◌, ◌≤◌, min, max, bit_and, bit_or, digits, bit_and-bitwise,
  bit_or-bitwise,
}
use mathlib.Core.Path.{◌≡◌, refl, ap}
use native.Mathlib.Omega.{arith}

-- More fuel than the first number changes nothing.
more_fuel :
    (z : ℕ → ℕ) (f : ℕ → ℕ → ℕ) (n k x y : ℕ) → x ≤ n → x ≤ k → digits z f n x y ≡ digits z f k x y
more_fuel z f zero zero zero y p q = refl
more_fuel z f zero (suc k) zero y p q = refl
more_fuel z f (suc n) zero zero y p q = refl
more_fuel z f (suc n) (suc k) zero y p q = refl
more_fuel z f zero k (suc x) y p q = absurd (omega arith)
more_fuel z f (suc n) zero (suc x) y p q = absurd (omega arith)
more_fuel z f (suc n) (suc k) (suc x) y p q =
    ap (λ d. d * 2 + f (suc x % 2) (y % 2))
      (more_fuel z f n k (suc x / 2) (y / 2) (omega arith) (omega arith))

pub bit_and-half : (x y : ℕ) → bit_and x y ≡ bit_and (x / 2) (y / 2) * 2 + min (x % 2) (y % 2)
bit_and-half zero y = simp bit_and-bitwise (omega arith)
bit_and-half (suc x) y = simp bit_and-bitwise (
    ap (λ d. d * 2 + min (suc x % 2) (y % 2))
      (more_fuel (λ _. 0) min x (suc x / 2) (suc x / 2) (y / 2) (omega arith) (omega arith)))

pub bit_or-half : (x y : ℕ) → bit_or x y ≡ bit_or (x / 2) (y / 2) * 2 + max (x % 2) (y % 2)
bit_or-half zero y = simp bit_or-bitwise (omega arith)
bit_or-half (suc x) y = simp bit_or-bitwise (
    ap (λ d. d * 2 + max (suc x % 2) (y % 2))
      (more_fuel (λ d. d) max x (suc x / 2) (suc x / 2) (y / 2) (omega arith) (omega arith)))
