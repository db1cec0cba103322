-- ===== src/Memory/Frames.antt =====
-- os/src/memory/frame_allocator.rs, `StackFrameAllocator`. A call returns the new allocator beside
-- its result.
pub mod Laws
use ch_os.Base.{ℕ, ◌≡◌, ◌||◌, List, [], ◌∷◌, Option, none, some, ◌==◌, leb, if◌then◌else◌, contains}
use ch_os.Base.Bits.{add_usize, sub_usize}
use ch_os.Base.Outcome.{Outcome, done, panic}
use ch_os.Memory.Address.{phys_page_num}

-- The head of `recycled` is the top of the stack.
pub record StackFrameAllocator : Type 0 where
  pub current : ℕ
  pub end : ℕ
  pub recycled : List ℕ

pub new : StackFrameAllocator
new = record { current = 0; end = 0; recycled = [] }

pub init : StackFrameAllocator → ℕ → ℕ → StackFrameAllocator
init s l r = record s { current = l; end = r }

unfoldable pub alloc : StackFrameAllocator → Option ℕ × StackFrameAllocator
alloc s = elim s.recycled [
  | ppn ∷ rest ↦ (some (phys_page_num ppn), record s { recycled = rest })
  | [] ↦
      if s.current == s.end
      then (none, s)
      else let current' = add_usize s.current 1 in
        (some (phys_page_num (sub_usize current' 1)), record s { current = current' })
]

unfoldable pub dealloc : StackFrameAllocator → ℕ → Outcome StackFrameAllocator
dealloc s ppn =
    if leb s.current ppn || contains ppn s.recycled
    then panic
    else done (record s { recycled = ppn ∷ s.recycled })
