-- ===== src/EasyFs/Bitmap/Alloc.antt =====
-- `alloc` of the bitmap, the search for the lowest bit that is clear.
use ch_os.Base.{
  ℕ, zero, suc, ◌+◌, ◌*◌, ◌/◌, ◌%◌, ◌^◌, ◌≤◌, ◌<◌, ◌≡◌, ◌≢◌, refl, true, Option, none, some, arith,
  ◌==◌, if◌then◌else◌, Bool-cases, inl, inr, bit_or, ltb, leb, ◌||◌, subst,
}
use ch_os.Base.Bits.{bit_at, bit_or-two-pow}
use ch_os.Base.Word.{
  trailing_ones, trailing_ones_lem, bit_at-below_trailing_ones, bit_at-fill, fill-lt, bit_at-ones,
}
use ch_os.EasyFs.Disk.{Disk, IsDisk, word, set_word, word-lt, set_word-IsDisk}
use ch_os.EasyFs.Bitmap.Bits.{bit_of, bit_of-set_word}
use ch_os.EasyFs.Bitmap.{Bitmap, block_bits, u64_max, find_word, alloc_from, alloc, maximum}

-- What the search in one block finds.
abbrev pub Found : (ℕ → ℕ) → ℕ → ℕ → Option (ℕ × ℕ) → Type 0
Found words i end none = (j : ℕ) → i ≤ j → j < end → words j ≡ u64_max
Found words i end (some (p, q)) =
    (i ≤ p)
    × (p < end)
    × (q ≡ trailing_ones 64 (words p))
    × (words p ≢ u64_max)
    × ((j : ℕ) → i ≤ j → j < p → words j ≡ u64_max)

Found-later :
    (words : ℕ → ℕ) (i end : ℕ) (o : Option (ℕ × ℕ))
    → words i ≡ u64_max
    → Found words (i + 1) end o
    → Found words i end o
Found-later words i end none full f = λ j l u. ground (arith, f j)
Found-later words i end (some (p, q)) full f =
    (omega (arith, f.0), f.1, f.2, f.3, λ j l u. ground (arith, f.4 j))

find_word-Found :
    (words : ℕ → ℕ) (left i end : ℕ) → i + left ≡ end → Found words i end (find_word words left i)
unfolding find_word
find_word-Found words zero i end e = λ j l u. absurd (omega arith)
find_word-Found words (suc left) i end e = elim (Bool-cases (words i == u64_max)) [
  | inl full ↦ rw full (
      Found-later words i end (find_word words left (i + 1)) (ground arith)
        (find_word-Found words left (i + 1) end (omega arith)))
  | inr room ↦
      rw room (omega arith, omega arith, refl, (λ h. ground arith), λ j l u. absurd (omega arith))
]

-- What `alloc` gives, where it looks at the bits from `low` up to `high`.
abbrev pub Allocated : ℕ → ℕ → ℕ → Disk → Option ℕ × Disk → Type 0
Allocated start low high d (none, d') =
    (d' ≡ d) × ((m : ℕ) → low ≤ m → m < high → bit_of start d m ≡ 1)
Allocated start low high d (some n, d') =
    (low ≤ n)
    × (n < high)
    × (bit_of start d n ≡ 0)
    × IsDisk d'
    × ((m : ℕ) → bit_of start d' m ≡ (if m == n then 1 else bit_of start d m))
    × ((m : ℕ) → low ≤ m → m < n → bit_of start d m ≡ 1)

-- The block `k` is full.
full_block :
    (start : ℕ) (d : Disk) (k m : ℕ)
    → Found (word d (k + start)) 0 64 none
    → k * block_bits ≤ m
    → m < (k + 1) * block_bits
    → bit_of start d m ≡ 1
full_block start d k m f l u =
    let same : m / block_bits ≡ k = omega arith in
    rw (same, f (m % block_bits / 64) (omega arith) (omega arith))
      (bit_at-ones 64 (m % 64) (omega arith))

-- The bits below the one that is found are set.
full_below :
    (start : ℕ) (d : Disk) (k p q m : ℕ)
    → Found (word d (k + start)) 0 64 (some (p, q))
    → q < 64
    → k * block_bits ≤ m
    → m < k * block_bits + p * 64 + q
    → bit_of start d m ≡ 1
full_below start d k p q m f hq l u = elim (Bool-cases (ltb (m % block_bits / 64) p)) [
  | inl before ↦
      let full = f.4 (m % block_bits / 64) (omega arith) (ground arith) in
      rw (same, full) (bit_at-ones 64 (m % 64) (omega arith))
  | inr not_before ↦
      let here : m % block_bits / 64 ≡ p = ground (arith, same) in
      rw (same, here)
        (bit_at-below_trailing_ones 64 (m % 64) (word d (k + start) p) (omega (arith, f.2, here)))
]
  where
    same : m / block_bits ≡ k
    same = omega (arith, f.1)

-- The block `k` has room.
Found-block :
    (start : ℕ) (d : Disk) (k p q high : ℕ)
    → IsDisk d
    → Found (word d (k + start)) 0 64 (some (p, q))
    → (k + 1) * block_bits ≤ high
    → Allocated start (k * block_bits) high d (
      some (k * block_bits + p * 64 + q),
      set_word d (k + start) p (bit_or (word d (k + start) p) (2 ^ q)),
    )
Found-block start d k p q high h f e =
    let w = word d (k + start) p in
    let small = word-lt d (k + start) p h in
    let run = trailing_ones_lem 64 w small f.3 in
    let q_lt : q < 64 = omega (arith, run, f.2) in
    let clear : bit_at w q ≡ 0 = rw f.2 run.1 in
    (
      omega arith,
      omega arith,
      ground arith,
      set_word-IsDisk d (k + start) p _ h,
      λ m.
          bit_of-set_word start d k p q (bit_or w (2 ^ q)) 1 _ m f.1 q_lt refl
            (rw (bit_or-two-pow q w) (fill-lt 64 q w small q_lt))
            (rw (bit_or-two-pow q w) (bit_at-fill q (m % 64) w)),
      λ m l u. full_below start d k p q m f q_lt l u,
    )

alloc_from-Allocated :
    (start left k high : ℕ) (d : Disk)
    → IsDisk d
    → (k + left) * block_bits ≡ high
    → Allocated start (k * block_bits) high d (alloc_from start left k d)
unfolding alloc_from
alloc_from-Allocated start zero k high d h e = (refl, λ m l u. absurd (omega arith))
alloc_from-Allocated start (suc left) k high d h e =
    from (find_word (word d (k + start)) 64 0) (find_word-Found (word d (k + start)) 64 0 64 refl)
      (alloc_from-Allocated start left (k + 1) high d h (omega arith))
  where
    widen :
        (r : Option ℕ × Disk)
        → Found (word d (k + start)) 0 64 none
        → Allocated start ((k + 1) * block_bits) high d r
        → Allocated start (k * block_bits) high d r
    widen (none, d') f a = (
      a.0,
      λ m l u. elim (Bool-cases (ltb m ((k + 1) * block_bits))) [
        | inl in_block ↦ full_block start d k m f l (ground arith)
        | inr after ↦ a.1 m (ground arith) u
      ],
    )
    widen (some n, d') f a = (
      omega (arith, a.0),
      a.1,
      a.2,
      a.3,
      a.4,
      λ m l u. elim (Bool-cases (ltb m ((k + 1) * block_bits))) [
        | inl in_block ↦ full_block start d k m f l (ground arith)
        | inr after ↦ a.5 m (ground arith) u
      ],
    )

    from :
        (o : Option (ℕ × ℕ))
        → Found (word d (k + start)) 0 64 o
        → Allocated start ((k + 1) * block_bits) high d (alloc_from start left (k + 1) d)
        → Allocated start (k * block_bits) high d (elim o [
          | some (bits64_pos, inner_pos) ↦ (
            some (k * block_bits + bits64_pos * 64 + inner_pos),
            set_word d
                (k + start)
                bits64_pos
                (bit_or (word d (k + start) bits64_pos) (2 ^ inner_pos)),
          )
          | none ↦ alloc_from start left (k + 1) d
        ])
    from none f a = widen (alloc_from start left (k + 1) d) f a
    from (some (p, q)) f a = Found-block start d k p q high h f (omega arith)

module _ (bm : Bitmap) (d : Disk) (h : IsDisk d) where
  alloc-Allocated : Allocated bm.start_block_id 0 (maximum bm) d (alloc bm d)
  unfolding alloc maximum
  alloc-Allocated =
      alloc_from-Allocated bm.start_block_id bm.blocks 0 (maximum bm) d h (omega arith)

  -- A bit that `alloc` returns is in range and was clear; it is now set, no other bit of the
  -- bitmap has changed, and every lower bit was set: it is the lowest that was clear. The
  -- contents of the blocks are bytes, before and after.
  pub alloc-lowest :
      (n m : ℕ) (d' : Disk)
      → alloc bm d ≡ (some n, d')
      → (n < maximum bm)
        × (bit_of bm.start_block_id d n ≡ 0)
        × IsDisk d'
        × (bit_of bm.start_block_id d' m ≡ (if m == n then 1 else bit_of bm.start_block_id d m))
        × ((leb n m || (bit_of bm.start_block_id d m == 1)) ≡ true)
  alloc-lowest n m d' e =
      let a = subst (λ r. Allocated bm.start_block_id 0 (maximum bm) d r) e alloc-Allocated in
      (
        a.1,
        a.2,
        a.3,
        a.4 m,
        elim (Bool-cases (leb n m)) [
          | inl above ↦ ground arith
          | inr below ↦ rw below (ground (arith, a.5 m (omega arith) (ground arith)))
        ],
      )

  -- `alloc` returns `None` only where every bit in range is set, and then changes nothing.
  pub alloc-full :
      (m : ℕ) (d' : Disk)
      → alloc bm d ≡ (none, d')
      → m < maximum bm
      → (d' ≡ d) × (bit_of bm.start_block_id d m ≡ 1)
  alloc-full m d' e u =
      let a = subst (λ r. Allocated bm.start_block_id 0 (maximum bm) d r) e alloc-Allocated in
      (a.0, a.1 m (omega arith) u)
