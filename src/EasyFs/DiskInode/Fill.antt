-- ===== src/EasyFs/DiskInode/Fill.antt =====
-- The loops of `DiskInode::increase_size` over direct and index blocks: what they take.
use ch_os.Base.{
  ℕ, zero, suc, ◌+◌, ◌-◌, ◌*◌, ◌/◌, ◌%◌, ◌≤◌, ◌<◌, ◌≡◌, true, arith, ap, ◌==◌, ltb, List, [], ◌∷◌,
  length, ◌&&◌, ◌||◌, Bool-cases, inl, inr, update,
}
use ch_os.Base.Outcome.{Meets, Meets->>=, Meets-mono}
use ch_os.EasyFs.Disk.{Disk, set_index}
use ch_os.EasyFs.DiskInode.{next_block, fill_direct, fill_indirect1, fill_round, fill_indirect2}

pub fill_direct-takes :
    (left current : ℕ) (direct : ℕ → ℕ) (bs : List ℕ)
    → Meets
        (length bs < left)
        (λ r. left + length r.1 ≡ length bs)
        (fill_direct left current direct bs)
unfolding fill_direct
fill_direct-takes zero current direct bs = ground arith
fill_direct-takes (suc left) current direct [] = ground arith
fill_direct-takes (suc left) current direct (b ∷ bs) =
    Meets-mono _ (fill_direct left (current + 1) (update direct current b) bs)
      (fill_direct-takes left (current + 1) (update direct current b) bs) (λ few. omega arith)
      (λ r e. omega arith)

pub fill_indirect1-takes :
    (left current i : ℕ) (d : Disk) (bs : List ℕ)
    → Meets
        (length bs < left)
        (λ r. left + length r.1 ≡ length bs)
        (fill_indirect1 left current i d bs)
unfolding fill_indirect1
fill_indirect1-takes zero current i d bs = ground arith
fill_indirect1-takes (suc left) current i d [] = ground arith
fill_indirect1-takes (suc left) current i d (b ∷ bs) =
    Meets-mono _ (fill_indirect1 left (current + 1) i (set_index d i current b) bs)
      (fill_indirect1-takes left (current + 1) i (set_index d i current b) bs) (λ few. omega arith)
      (λ r e. omega arith)

pub next_block-takes :
    (bs : List ℕ) → Meets (length bs < 1) (λ r. 1 + length r.1 ≡ length bs) (next_block bs)
next_block-takes [] = ground arith
next_block-takes (b ∷ bs) = ground arith

-- The blocks of the first `k` entries below the second level, data and index blocks.
unfoldable pub below2 : ℕ → ℕ
below2 k = k + (k + 127) / 128

fill_round-takes :
    (a b i : ℕ) (d : Disk) (bs : List ℕ)
    → a < 128
    → b < 128
    → Meets
        (length bs + below2 (a * 128 + b) < below2 (a * 128 + b + 1))
        (λ r. below2 (a * 128 + b + 1) + length r.1 ≡ below2 (a * 128 + b) + length bs)
        (fill_round a b i d bs)
unfolding fill_round below2
fill_round-takes a b i d [] ha hb = ground arith
fill_round-takes a b i d (x ∷ []) ha hb = ground arith
fill_round-takes a b i d (x ∷ y ∷ bs) ha hb = ground arith

fill_indirect2-takes :
    (fuel a1 b1 a b i : ℕ) (d : Disk) (bs : List ℕ)
    → a * 128 + b ≤ a1 * 128 + b1
    → b < 128
    → b1 < 128
    → a1 * 128 + b1 ≤ 16384
    → a1 * 128 + b1 ≡ a * 128 + b + fuel
    → Meets
        (length bs + below2 (a * 128 + b) < below2 (a1 * 128 + b1))
        (λ r. below2 (a1 * 128 + b1) + length r.1 ≡ below2 (a * 128 + b) + length bs)
        (fill_indirect2 fuel a1 b1 a b i d bs)
unfolding fill_indirect2 below2
fill_indirect2-takes zero a1 b1 a b i d bs le hb hb1 lim e = ground (arith, ap below2 e)
fill_indirect2-takes (suc fuel) a1 b1 a b i d bs le hb hb1 lim e =
    let more : (ltb a a1 || ((a == a1) && ltb b b1)) ≡ true = ground arith in
    rw (more, Meets, fill_indirect2)
      (Meets->>= _ (fill_round a b i d bs) _ (fill_round-takes a b i d bs (omega arith) hb)
        (λ few. omega arith)
        (λ r h. elim (Bool-cases (b + 1 == 128)) [
          | inl full ↦ rw full (
              let last : b ≡ 127 = ground arith in
              Meets-mono _ (fill_indirect2 fuel a1 b1 (a + 1) 0 i r.0 r.1)
                (fill_indirect2-takes fuel a1 b1 (a + 1) 0 i r.0 r.1 (omega arith) (omega arith) hb1
                  lim (omega arith))
                (λ few. omega arith) (λ q g. omega arith))
          | inr more ↦ rw more (
              let inner : b + 1 < 128 = ground arith in
              Meets-mono _ (fill_indirect2 fuel a1 b1 a (b + 1) i r.0 r.1)
                (fill_indirect2-takes fuel a1 b1 a (b + 1) i r.0 r.1 (omega arith) inner hb1 lim
                  (omega arith))
                (λ few. omega arith) (λ q g. omega arith))
        ]))

-- The same for the loop alone, from the numbers that `increase_size` counts with.
pub fill_from-takes :
    (current total i : ℕ) (d : Disk) (bs : List ℕ)
    → current ≤ total
    → total ≤ 16384
    → Meets
        (length bs + below2 current < below2 total)
        (λ r. below2 total + length r.1 ≡ below2 current + length bs)
        (fill_indirect2
          (total - current)
          (total / 128)
          (total % 128)
          (current / 128)
          (current % 128)
          i
          d
          bs)
unfolding below2
fill_from-takes current total i d bs le lim =
    Meets-mono _
      (fill_indirect2 (total - current) (total / 128) (total % 128) (current / 128) (current % 128)
        i d bs)
      (fill_indirect2-takes (total - current) (total / 128) (total % 128) (current / 128)
        (current % 128) i d bs (omega arith) (omega arith) (omega arith) (omega arith)
        (omega arith))
      (λ few. omega arith) (λ r h. omega arith)
