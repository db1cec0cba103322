-- ===== src/Task/Pid/Laws.antt =====
-- What the allocator of process identifiers promises, and that kernel stacks do not meet.
use ch_os.Base.{
  ℕ, ◌+◌, ◌^◌, ◌≤◌, ◌<◌, ◌≡◌, Bool, true, false, ◌&&◌, ◌||◌, not, List, [], ◌∷◌, arith, ◌==◌, ltb,
  inl, inr, List-cases, contains, Distinct,
}
use ch_os.Base.Outcome.{done, panic}
use ch_os.Task.Pid.{PidAllocator, new, alloc, dealloc, kernel_stack_position, trampoline}

abbrev pub all_below : ℕ → List ℕ → Bool
all_below n [] = true
all_below n (p ∷ ps) = ltb p n && all_below n ps

pub record IsValid (s : PidAllocator) : Type 0 where
  pub small : s.current < 2 ^ 64
  pub inside : all_below s.current s.recycled ≡ true
  pub distinct : Distinct s.recycled

-- The identifiers in use.
abbrev pub is_live : PidAllocator → ℕ → Bool
is_live s p = ltb p s.current && not (contains p s.recycled)

-- Before any process, no identifier is in use.
new-IsValid : IsValid new
unfolding new
new-IsValid = ground arith

module _ {s : PidAllocator} (v : IsValid s) where
  -- While fewer than 2^64 - 1 identifiers have been made, `alloc` of a valid allocator gives
  -- one that no live process has; it is in use from then on, and the state of no other changes.
  pub alloc-fresh :
      (q : ℕ)
      → s.current + 1 < 2 ^ 64
      → IsValid (alloc s).1
        × (is_live s (alloc s).0 ≡ false)
        × (is_live (alloc s).1 q ≡ ((alloc s).0 == q) || is_live s q)
  unfolding alloc
  alloc-fresh q h = elim (List-cases s.recycled) [
    | inl empty ↦ rw (empty, alloc) (ground arith, ground arith, ground arith)
    | inr (x, rest, more) ↦ rw (more, alloc) (ground arith, ground arith, ground arith)
  ]

  -- `dealloc`, which the end of a handle's life calls, takes an identifier in use back into a
  -- valid allocator and changes the state of no other.
  pub dealloc-live :
      (p q : ℕ)
      → is_live s p ≡ true
      → (s' : PidAllocator) × (dealloc s p ≡ done s')
        × IsValid s'
        × (is_live s' q ≡ not (p == q) && is_live s q)
  unfolding dealloc
  dealloc-live p q h =
      (record s { recycled = p ∷ s.recycled }, ground arith, ground arith, ground arith)

  -- An identifier that is not in use is refused.
  pub dealloc-not_live : (p : ℕ) → is_live s p ≡ false → dealloc s p ≡ panic
  unfolding dealloc
  dealloc-not_live p h = ground arith

-- The kernel stacks of two processes, and the page below each, do not meet: for identifiers below
-- 2^50 the stack of the greater one ends at least a page below the bottom of the other, each has
-- two pages, and all lie below the trampoline.
pub kernel_stack_position-apart :
    (p q : ℕ)
    → p < q
    → q < 2 ^ 50
    → let (bottom, top) = kernel_stack_position p in
      let (bottom', top') = kernel_stack_position q in
      (top' + 4096 ≤ bottom) × (top ≤ trampoline) × (bottom + 8192 ≡ top) × (bottom' + 8192 ≡ top')
unfolding kernel_stack_position
kernel_stack_position-apart p q h k = (omega arith, omega arith, omega arith, omega arith)
