-- ===== src/Base/Word.antt =====
-- Setting and clearing one bit of a word, and the run of ones at its low end.
use ch_os.Base.Bits.{bit_at, two-pow-suc, two-pow_pos, bit_at-suc}
use ch_os.Base.Tests.{◌==◌, if◌then◌else◌, Bool-cases}
use Prim.Native.Nat.{ℕ, zero, suc, ◌+◌, ◌-◌, ◌*◌, ◌/◌, ◌%◌, ◌^◌, ◌≤◌, ◌<◌}
use mathlib.Core.Path.{◌≡◌, ap, sym, ◌∙◌}
use mathlib.Core.Logic.{◌≢◌, inl, inr}
use native.Mathlib.Omega.{arith}

-- `x` with the bit at `p` filled.
abbrev pub fill : ℕ → ℕ → ℕ
fill x p = x + (1 - bit_at x p) * 2 ^ p

bit_at-zero : (x : ℕ) → bit_at x 0 ≡ x % 2
bit_at-zero x = omega arith

fill-suc : (x p : ℕ) → fill x (suc p) ≡ fill (x / 2) p * 2 + x % 2
fill-suc x p = rw (bit_at-suc x p, two-pow-suc p) (omega arith)

pub bit_at-fill : (p q x : ℕ) → bit_at (fill x p) q ≡ (if q == p then 1 else bit_at x q)
bit_at-fill zero zero x = omega arith
bit_at-fill zero (suc q) x =
    let halved : fill x zero / 2 ≡ x / 2 = omega arith in
    ground (arith, bit_at-suc (fill x zero) q ∙ ap (λ y. bit_at y q) halved ∙ sym (bit_at-suc x q))
bit_at-fill (suc p) zero x = ground (arith, fill-suc x p)
bit_at-fill (suc p) (suc q) x =
    let halved : fill x (suc p) / 2 ≡ fill (x / 2) p = omega (arith, fill-suc x p) in
    ground (
      arith,
      bit_at-suc (fill x (suc p)) q ∙ ap (λ y. bit_at y q) halved ∙ bit_at-fill p q (x / 2),
      bit_at-suc x q,
    )

pub fill-lt : (n p x : ℕ) → x < 2 ^ n → p < n → fill x p < 2 ^ n
fill-lt zero p x h k = absurd (omega arith)
fill-lt (suc n) zero x h k = omega (arith, two-pow-suc n)
fill-lt (suc n) (suc p) x h k = omega (
  arith,
  two-pow-suc n,
  fill-suc x p,
  fill-lt n p (x / 2) (omega (arith, two-pow-suc n)) (omega arith),
)

pub two-pow-le : (p x : ℕ) → bit_at x p ≡ 1 → 2 ^ p ≤ x
two-pow-le zero x h = omega arith
two-pow-le (suc p) x h =
    omega (arith, two-pow-suc p, two-pow-le p (x / 2) (rw (← bit_at-suc x p) h))

-- `x` without its bit at `p`.
sub-suc_pow : (x p : ℕ) → bit_at x (suc p) ≡ 1 → x - 2 ^ suc p ≡ (x / 2 - 2 ^ p) * 2 + x % 2
sub-suc_pow x p h = omega (arith, two-pow-suc p, two-pow-le p (x / 2) (rw (← bit_at-suc x p) h))

pub bit_at-sub :
    (p q x : ℕ) → bit_at x p ≡ 1 → bit_at (x - 2 ^ p) q ≡ (if q == p then 0 else bit_at x q)
bit_at-sub zero zero x h = omega arith
bit_at-sub zero (suc q) x h =
    let halved : (x - 1) / 2 ≡ x / 2 = omega arith in
    ground (arith, bit_at-suc (x - 1) q ∙ ap (λ y. bit_at y q) halved ∙ sym (bit_at-suc x q))
bit_at-sub (suc p) zero x h = ground (arith, sub-suc_pow x p h)
bit_at-sub (suc p) (suc q) x h =
    let halved : (x - 2 ^ suc p) / 2 ≡ x / 2 - 2 ^ p = omega (arith, sub-suc_pow x p h) in
    ground (
      arith,
      bit_at-suc (x - 2 ^ suc p) q
          ∙ ap (λ y. bit_at y q) halved
          ∙ bit_at-sub p q (x / 2) (rw (← bit_at-suc x p) h),
      bit_at-suc x q,
    )

-- `u64::trailing_ones`, for words of `n` bits.
unfoldable pub trailing_ones : ℕ → ℕ → ℕ
trailing_ones zero x = 0
trailing_ones (suc n) x =
    let deeper = trailing_ones n (x / 2) in if x % 2 == 1 then suc deeper else 0

-- In a word that is not all ones, the bit above the run is the lowest that is clear.
pub trailing_ones_lem :
    (n x : ℕ)
    → x < 2 ^ n
    → x ≢ 2 ^ n - 1
    → (trailing_ones n x < n) × (bit_at x (trailing_ones n x) ≡ 0)
unfolding trailing_ones
trailing_ones_lem zero x h k = absurd (k (omega arith))
trailing_ones_lem (suc n) x h k = elim (Bool-cases (x % 2 == 1)) [
  | inl odd ↦
      let rest =
        trailing_ones_lem n (x / 2) (omega (arith, two-pow-suc n))
          (λ e. k (ground (arith, two-pow-suc n, two-pow_pos n))) in
      rw odd (omega (arith, rest), rw (bit_at-suc x (trailing_ones n (x / 2))) rest.1)
  | inr even ↦ rw even (omega arith, ground arith)
]

pub bit_at-below_trailing_ones : (n q x : ℕ) → q < trailing_ones n x → bit_at x q ≡ 1
unfolding trailing_ones
bit_at-below_trailing_ones zero q x h = absurd (omega arith)
bit_at-below_trailing_ones (suc n) zero x h = ground arith
bit_at-below_trailing_ones (suc n) (suc q) x h =
    rw (bit_at-suc x q) (bit_at-below_trailing_ones n q (x / 2) (ground arith))

pub bit_at-ones : (n q : ℕ) → q < n → bit_at (2 ^ n - 1) q ≡ 1
bit_at-ones zero q h = absurd (omega arith)
bit_at-ones (suc n) zero h = omega (arith, two-pow-suc n, two-pow_pos n)
bit_at-ones (suc n) (suc q) h = rw (bit_at-suc (2 ^ suc n - 1) q) (
    ap (λ y. bit_at y q) (omega (arith, two-pow-suc n, two-pow_pos n))
    ∙ bit_at-ones n q (omega arith))
