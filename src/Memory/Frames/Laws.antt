-- ===== src/Memory/Frames/Laws.antt =====
-- What the frame allocator promises: each frame of its range is free or has one owner.
use ch_os.Base.{
  ℕ, ◌+◌, ◌-◌, ◌^◌, ◌≤◌, ◌<◌, ◌≡◌, Bool, true, false, ◌&&◌, ◌||◌, not, List, [], ◌∷◌, none, some,
  arith, ◌==◌, leb, ltb, ◌↔◌, inl, inr, List-cases, contains, Distinct, length,
}
use ch_os.Base.Outcome.{done, panic}
use ch_os.Memory.Address.Pages.{phys_page_num-mod}
use ch_os.Memory.Frames.{StackFrameAllocator, alloc, dealloc, init, new}

abbrev pub all_within : ℕ → ℕ → List ℕ → Bool
all_within start current [] = true
all_within start current (p ∷ ps) = leb start p && ltb p current && all_within start current ps

-- `start` is the first frame that `init` was given.
pub record IsValid (start : ℕ) (s : StackFrameAllocator) : Type 0 where
  pub begun : start ≤ s.current
  pub within : s.current ≤ s.end
  pub small : s.end ≤ 2 ^ 44
  pub inside : all_within start s.current s.recycled ≡ true
  pub distinct : Distinct s.recycled

-- The frames that are handed out.
abbrev pub is_allocated : ℕ → StackFrameAllocator → ℕ → Bool
is_allocated start s p = leb start p && ltb p s.current && not (contains p s.recycled)

-- How many frames are still free.
abbrev pub free_frames : StackFrameAllocator → ℕ
free_frames s = (s.end - s.current) + length s.recycled

-- A fresh allocator is valid, and has handed out no frame.
pub init-IsValid :
    (l r : ℕ) → l ≤ r → r ≤ 2 ^ 44 → IsValid l (init new l r) × (free_frames (init new l r) ≡ r - l)
unfolding init new
init-IsValid l r h k = (ground arith, omega arith)

module _ (start : ℕ) {s : StackFrameAllocator} (v : IsValid start s) where
  -- A frame that a valid allocator returns lies in the range, was free, and is the one frame
  -- whose state changes; the allocator stays valid and has one free frame less.
  pub alloc-some :
      (p q : ℕ) {s' : StackFrameAllocator}
      → alloc s ≡ (some p, s')
      → IsValid start s'
        × (start ≤ p)
        × (p < s.end)
        × (is_allocated start s p ≡ false)
        × (is_allocated start s' q ≡ (p == q) || is_allocated start s q)
        × (free_frames s ≡ free_frames s' + 1)
  unfolding alloc
  alloc-some p q {s'} e = elim (List-cases s.recycled) [
    | inl empty ↦ ground (arith, phys_page_num-mod s.current)
    | inr (x, rest, more) ↦ ground (arith, phys_page_num-mod x)
  ]

  -- `alloc` of a valid allocator returns `None` just when no frame of the range is free.
  pub alloc-none : ((alloc s).0 ≡ none) ↔ (free_frames s ≡ 0)
  unfolding alloc
  alloc-none = elim (List-cases s.recycled) [
    | inl empty ↦ (λ e. ground arith, λ e. ground arith)
    | inr (x, rest, more) ↦ (λ e. ground arith, λ e. ground arith)
  ]

  pub dealloc-allocated :
      (p : ℕ)
      → is_allocated start s p ≡ true
      → (s' : StackFrameAllocator) × (dealloc s p ≡ done s')
        × IsValid start s'
        × ((q : ℕ) → is_allocated start s' q ≡ not (p == q) && is_allocated start s q)
        × (free_frames s' ≡ free_frames s + 1)
  unfolding dealloc
  dealloc-allocated p h = (
    record s { recycled = p ∷ s.recycled },
    ground arith,
    ground arith,
    λ q. ground arith,
    ground arith,
  )

  -- A valid allocator takes back a frame that is handed out, changes the state of no other, and
  -- stays valid with one free frame more.
  pub dealloc-done :
      (p q : ℕ)
      → is_allocated start s p ≡ true
      → (s' : StackFrameAllocator) × (dealloc s p ≡ done s')
        × IsValid start s'
        × (is_allocated start s' q ≡ not (p == q) && is_allocated start s q)
        × (free_frames s' ≡ free_frames s + 1)
  dealloc-done p q h =
      let (s', e, valid, back, count) = dealloc-allocated p h in (s', e, valid, back q, count)

  -- A frame from the start of the range on that is not handed out is refused by a valid
  -- allocator: no frame is freed twice.
  pub dealloc-panic : (p : ℕ) → start ≤ p → is_allocated start s p ≡ false → dealloc s p ≡ panic
  unfolding dealloc
  dealloc-panic p h k = ground arith

-- The check of `dealloc` has no lower bound: a frame below the range of a valid allocator, which
-- was never handed out, is accepted once, and the next `alloc` hands it out.
pub dealloc-below_start :
    (start : ℕ) {s : StackFrameAllocator} (p : ℕ)
    → IsValid start s
    → p < start
    → contains p s.recycled ≡ false
    → (s' : StackFrameAllocator) × (dealloc s p ≡ done s') × ((alloc s').0 ≡ some p)
unfolding dealloc alloc
dealloc-below_start start {s} p v h k =
    (record s { recycled = p ∷ s.recycled }, ground arith, ground (arith, phys_page_num-mod p))
