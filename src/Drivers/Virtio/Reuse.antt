-- ===== src/Drivers/Virtio/Reuse.antt =====
-- Memory that a device gives back, and the next request.
use ch_os.Base.{
  ℕ, zero, suc, ◌+◌, ◌^◌, ◌≤◌, ◌<◌, ◌≡◌, refl, sym, subst, true, false, List, ◌∷◌, arith, ◌==◌, leb,
  ◌||◌, if◌then◌else◌, Bool-cases, inl, inr, contains,
}
use ch_os.Base.Bits.{add_usize}
use ch_os.Base.Outcome.{Outcome, done, panic, >>=-eq-done}
use ch_os.Memory.Address.{phys_to_page, step}
use ch_os.Memory.Address.Pages.{phys_page_num-mod}
use ch_os.Memory.Frames.{StackFrameAllocator, alloc, dealloc}
use ch_os.Memory.PageTable.{Machine, frame_alloc}
use ch_os.Drivers.Virtio.{dma_from, virtio_dma_alloc, release_from, virtio_dma_dealloc}

-- A frame that is taken back lies on top of the stack.
dealloc-top :
    (s s' : StackFrameAllocator) (p : ℕ)
    → dealloc s p ≡ done s'
    → (p < s.current) × (s'.recycled ≡ p ∷ s.recycled) × (s'.current ≡ s.current)
unfolding dealloc
dealloc-top s s' p e = elim (Bool-cases (leb s.current p || contains p s.recycled)) [
  | inl refused ↦ ground arith
  | inr accepted ↦ ground arith
]

-- The two frames that were given back last are on top, the last first.
abbrev Descending : ℕ → StackFrameAllocator → Type 0
Descending q s = (rest : List ℕ) × (s.recycled ≡ (q + 1) ∷ q ∷ rest) × (q + 1 < 2 ^ 44)

release_from-Descending :
    (n p q : ℕ) (s s' : StackFrameAllocator) (rest : List ℕ)
    → s.current ≤ 2 ^ 44
    → s.recycled ≡ q ∷ rest
    → p ≡ q + 1
    → release_from (suc n) p s ≡ done s'
    → Descending (q + n) s'
unfolding release_from step
release_from-Descending zero p q s s' rest small top next e =
    let (s₁, freed, ends) = >>=-eq-done (dealloc s p) _ e in
    let (below, on_top, same) = dealloc-top s s₁ p freed in (rest, ground arith, ground arith)
release_from-Descending (suc n) p q s s' rest small top next e =
    let (s₁, freed, more) = >>=-eq-done (dealloc s p) _ e in
    let (below, on_top, same) = dealloc-top s s₁ p freed in
    subst (λ x. Descending x s') (omega arith)
      (release_from-Descending n (add_usize p 1) p s₁ s' s.recycled (omega (arith, same)) on_top
        (omega arith) more)

frame_alloc-top :
    (m : Machine) (f : ℕ) (rest : List ℕ)
    → m.allocator.recycled ≡ f ∷ rest
    → f < 2 ^ 44
    → (m₁ : Machine) × (frame_alloc m ≡ done (f, m₁)) × (m₁.allocator.recycled ≡ rest)
unfolding frame_alloc alloc
frame_alloc-top m f rest top small =
    let s = m.allocator in
    (
      record {
        words = λ p w. if p == f then 0 else m.words p w;
        allocator = record s { recycled = rest };
      },
      ground (arith, phys_page_num-mod f),
      refl,
    )

-- Two frames in a row are wanted, and the stack gives the higher one first.
dma_from-panic :
    (left q : ℕ) (queue : List ℕ) (m : Machine)
    → Descending q m.allocator
    → dma_from (suc (suc left)) 0 0 queue m ≡ panic
unfolding dma_from
dma_from-panic left q queue m (rest, top, small) =
    let (m₁, takes, left_over) = frame_alloc-top m (q + 1) (q ∷ rest) top small in
    let (m₂, takes', bottom) = frame_alloc-top m₁ q rest left_over (omega arith) in
    let first : (q + 1 == add_usize (q + 1) 0) ≡ true = ground arith in
    let second : (q == add_usize (q + 1) (0 + 1)) ≡ false = ground arith in
    rw (takes, first, takes', second) refl

done-allocator :
    (words : ℕ → ℕ → ℕ) (s : StackFrameAllocator) (m' : Machine)
    → ◌≡◌ {A = Outcome Machine} (done (record { words = words; allocator = s })) (done m')
    → m'.allocator ≡ s
done-allocator words s m' e = cc e

-- Once memory of two pages or more was given back, the next request of two pages or more panics,
-- however much memory is left: the frames come off the stack in descending order, and the assertion
-- wants them to ascend.
pub virtio_dma_alloc-after_dealloc :
    (pa n k : ℕ) (queue : List ℕ) (m m' : Machine)
    → m.allocator.current ≤ 2 ^ 44
    → virtio_dma_dealloc pa (suc (suc n)) m ≡ done m'
    → virtio_dma_alloc (suc (suc k)) queue m' ≡ panic
unfolding virtio_dma_dealloc virtio_dma_alloc release_from step
virtio_dma_alloc-after_dealloc pa n k queue m m' small e =
    let (p, is_page, next) = >>=-eq-done (phys_to_page pa) _ e in
    let (s', released, ends) = >>=-eq-done (release_from (suc (suc n)) p m.allocator) _ next in
    let (s₁, freed, more) = >>=-eq-done (dealloc m.allocator p) _ released in
    let (below, on_top, same) = dealloc-top m.allocator s₁ p freed in
    let two : Descending (p + n) s' =
      release_from-Descending n (add_usize p 1) p s₁ s' m.allocator.recycled (omega (arith, same))
        on_top (omega arith) more in
    let at : m'.allocator ≡ s' = done-allocator m.words s' m' ends in
    rw (dma_from-panic k (p + n) queue m' (subst (λ x. Descending (p + n) x) (sym at) two)) refl
