-- ===== src/Drivers/Virtio/Dma.antt =====
-- Memory for devices must be one run of frames: when the stack of frames gives one.
use ch_os.Base.{
  ℕ, zero, suc, ◌+◌, ◌*◌, ◌%◌, ◌^◌, ◌≤◌, ◌<◌, ◌≡◌, refl, sym, ap, ◌∙◌, true, false, List, [], ◌∷◌,
  ◌++◌, arith, ◌==◌, ltb, leb, ◌&&◌, if◌then◌else◌,
}
use mathlib.Core.List.{append_assoc, append-nil}
use ch_os.Base.Bits.{add_usize}
use ch_os.Base.Outcome.{Outcome, done, ◌>>=◌}
use ch_os.Memory.Address.{page_to_phys}
use ch_os.Memory.Address.Pages.{phys_page_num-mod}
use ch_os.Memory.Address.Range.{count_up}
use ch_os.Memory.Frames.{StackFrameAllocator, alloc}
use ch_os.Memory.PageTable.{Machine, frame_alloc}
use ch_os.Drivers.Virtio.{dma_from, virtio_dma_alloc}

-- The frames from `base` on, `n` of them, cleared.
abbrev pub cleared : ℕ → ℕ → (ℕ → ℕ → ℕ) → ℕ → ℕ → ℕ
cleared base n words p w = if leb base p && ltb p (base + n) then 0 else words p w

-- An allocator that has taken nothing back, after `n` frames.
abbrev pub advanced : StackFrameAllocator → ℕ → StackFrameAllocator
advanced s n = record s { current = s.current + n }

-- What a run of `n` frames leaves.
pub record Taken (n : ℕ) (m m' : Machine) : Type 0 where
  pub allocator : m'.allocator ≡ advanced m.allocator n
  pub words : (p w : ℕ) → m'.words p w ≡ cleared m.allocator.current n m.words p w

frame_alloc-fresh :
    (m : Machine)
    → m.allocator.recycled ≡ []
    → m.allocator.current < m.allocator.end
    → m.allocator.end ≤ 2 ^ 44
    → (m' : Machine) × (frame_alloc m ≡ done (m.allocator.current, m')) × Taken 1 m m'
unfolding frame_alloc alloc
frame_alloc-fresh m empty room small =
    let c = m.allocator.current in
    let m' : Machine = record {
      words = λ p w. if p == c then 0 else m.words p w;
      allocator = advanced m.allocator 1;
    } in
    (
      m',
      ground (arith, phys_page_num-mod c),
      record { allocator = refl; words = λ p w. ground arith },
    )

Taken-one : (n : ℕ) (m m₁ m' : Machine) → Taken 1 m m₁ → Taken n m₁ m' → Taken (suc n) m m'
Taken-one n m m₁ m' a b = record {
  allocator =
      b.allocator
      ∙ ap (λ s. advanced s n) a.allocator
      ∙ ap {B = StackFrameAllocator} (λ c. record m.allocator { current = c }) (omega arith);
  words = λ p w.
      let start : m₁.allocator.current ≡ m.allocator.current + 1 =
        ap (λ (s : StackFrameAllocator). s.current) a.allocator in
      b.words p w ∙ ground (arith, a.words p w);
}

Taken-none : (m : Machine) → Taken 0 m m
Taken-none m = record {
  allocator = ap {B = StackFrameAllocator} (λ c. record m.allocator { current = c }) (omega arith);
  words = λ p w. ground arith;
}

-- A round in which the frame is the one that follows.
dma_round :
    (left i base f : ℕ) (queue : List ℕ) (m m₁ : Machine)
    → 0 < i
    → frame_alloc m ≡ done (f, m₁)
    → f ≡ base + i
    → f < 2 ^ 64
    → dma_from (suc left) i base queue m ≡ dma_from left (i + 1) base (queue ++ f ∷ []) m₁
unfolding dma_from
dma_round left i base f queue m m₁ pos takes follows small =
    let later : (i == 0) ≡ false = ground arith in
    let checks : (f == add_usize base i) ≡ true = ground arith in rw (takes, later, checks) refl

-- The rounds after the first.
dma_from-fresh :
    (left i base : ℕ) (queue : List ℕ) (m : Machine)
    → 0 < i
    → m.allocator.recycled ≡ []
    → m.allocator.current ≡ base + i
    → base + i + left ≤ m.allocator.end
    → m.allocator.end ≤ 2 ^ 44
    → (m' : Machine) × (dma_from left i base queue m
        ≡ done (base, queue ++ count_up (base + i) left, m'))
      × Taken left m m'
unfolding dma_from
dma_from-fresh zero i base queue m pos empty at room small =
    (m, ap (λ q. done (base, q, m)) (sym (append-nil queue)), Taken-none m)
dma_from-fresh (suc left) i base queue m pos empty at room small =
    let (m₁, takes, taken) = frame_alloc-fresh m empty (omega (arith, at)) small in
    let q₁ = queue ++ m.allocator.current ∷ [] in
    let next : m₁.allocator.current ≡ m.allocator.current + 1 =
      ap (λ (s : StackFrameAllocator). s.current) taken.allocator in
    let (m', runs, more) =
      dma_from-fresh left (i + 1) base q₁ m₁ (omega arith)
        (ap (λ (s : StackFrameAllocator). s.recycled) taken.allocator ∙ empty)
        (omega (arith, next, at))
        (omega (arith, ap (λ (s : StackFrameAllocator). s.end) taken.allocator))
        (omega (arith, ap (λ (s : StackFrameAllocator). s.end) taken.allocator)) in
    (
      m',
      dma_round left i base m.allocator.current queue m m₁ pos takes at (omega (arith, at))
          ∙ runs
          ∙ ap {B = Outcome (ℕ × List ℕ × Machine)} (λ q. done (base, q, m'))
              (append_assoc queue (m.allocator.current ∷ []) (count_up (base + (i + 1)) left)
                ∙ ap (λ x. queue ++ x ∷ count_up (base + (i + 1)) left) at
                ∙ ap (λ b. queue ++ (base + i) ∷ count_up b left) (omega arith)),
      Taken-one left m m₁ m' taken more,
    )

dma_first :
    (left f : ℕ) (queue : List ℕ) (m m₁ : Machine)
    → frame_alloc m ≡ done (f, m₁)
    → f < 2 ^ 64
    → dma_from (suc left) 0 0 queue m ≡ dma_from left 1 f (queue ++ f ∷ []) m₁
unfolding dma_from
dma_first left f queue m m₁ takes small =
    let checks : (f == add_usize f 0) ≡ true = ground arith in
    rw (takes, checks) (ap (λ i. dma_from left i f (queue ++ f ∷ []) m₁) (omega arith))

-- Where no frame was given back yet and enough are left, the pages that a device asks for, at least
-- one, are the next frames in a row: the call gives the address of the first, each is cleared and
-- kept in the queue in order, and no other frame changes.
pub virtio_dma_alloc-fresh :
    (pages : ℕ) (queue : List ℕ) (m : Machine)
    → 0 < pages
    → m.allocator.recycled ≡ []
    → m.allocator.current + pages ≤ m.allocator.end
    → m.allocator.end ≤ 2 ^ 44
    → (m' : Machine) × (virtio_dma_alloc pages queue m
        ≡ done (m.allocator.current * 2 ^ 12, queue ++ count_up m.allocator.current pages, m'))
      × Taken pages m m'
unfolding virtio_dma_alloc page_to_phys
virtio_dma_alloc-fresh zero queue m pos empty room small = absurd (omega arith)
virtio_dma_alloc-fresh (suc left) queue m pos empty room small =
    let c = m.allocator.current in
    let (m₁, takes, taken) = frame_alloc-fresh m empty (omega arith) small in
    let next : m₁.allocator.current ≡ c + 1 =
      ap (λ (s : StackFrameAllocator). s.current) taken.allocator in
    let same_end : m₁.allocator.end ≡ m.allocator.end =
      ap (λ (s : StackFrameAllocator). s.end) taken.allocator in
    let (m', runs, more) =
      dma_from-fresh left 1 c (queue ++ c ∷ []) m₁ (omega arith)
        (ap (λ (s : StackFrameAllocator). s.recycled) taken.allocator ∙ empty) next
        (omega (arith, same_end)) (omega (arith, same_end)) in
    (
      m',
      ap (λ o. o >>= λ (b, q, x). done (b * 2 ^ 12 % 2 ^ 64, q, x))
            (dma_first left c queue m m₁ takes (omega arith) ∙ runs)
          ∙ ap {B = Outcome (ℕ × List ℕ × Machine)}
              (λ a. done (a, (queue ++ c ∷ []) ++ count_up (c + 1) left, m')) (omega arith)
          ∙ ap {B = Outcome (ℕ × List ℕ × Machine)} (λ q. done (c * 2 ^ 12, q, m'))
              (append_assoc queue (c ∷ []) (count_up (c + 1) left)),
      Taken-one left m m₁ m' taken more,
    )
