-- ===== src/Memory/MemorySet/Fork.antt =====
-- os/src/memory/memory_set.rs, `MemorySet::from_existed_user`: a copy of an address space.
pub mod Pages
pub mod Area
pub mod AreaCopy
pub mod Areas
pub mod Whole
use ch_os.Base.{ℕ, List, [], ◌∷◌, none, ◌==◌, if◌then◌else◌}
use ch_os.Base.Outcome.{Outcome, done, unwrap, ◌>>=◌}
use ch_os.Memory.Entry
use ch_os.Memory.PageTable.{Machine}
use ch_os.Memory.MapArea.{MapArea, from_another, pages}
use ch_os.Memory.MemorySet.{MemorySet, new_bare, map_trampoline, push, translate}

-- `copy_from_slice` of a whole frame.
abbrev pub copy_frame : (ℕ → ℕ → ℕ) → ℕ → ℕ → ℕ → ℕ → ℕ
copy_frame words dst src p w = if p == dst then words src w else words p w

-- The pages of one area, from the address space `user_space` to the new one.
unfoldable pub copy_pages : List ℕ → MemorySet → MemorySet → Machine → Outcome Machine
copy_pages [] user_space ms m = done m
copy_pages (vpn ∷ rest) user_space ms m = do
  src ← unwrap (translate user_space vpn m)
  dst ← unwrap (translate ms vpn m)
  let words' = copy_frame m.words (Entry.ppn dst) (Entry.ppn src)
  copy_pages rest user_space ms (record m { words = words' })

-- One area: a new one with frames of its own, and its pages.
unfoldable pub copy_area : MapArea → MemorySet → MemorySet → Machine → Outcome (MemorySet × Machine)
copy_area area user_space ms m = do
  new_area ← from_another area
  (ms', m') ← push ms new_area none m
  m'' ← copy_pages (pages area) user_space ms' m'
  done (ms', m'')

unfoldable pub copy_areas :
    List MapArea → MemorySet → MemorySet → Machine → Outcome (MemorySet × Machine)
copy_areas [] user_space ms m = done (ms, m)
copy_areas (area ∷ rest) user_space ms m = do
  (ms', m') ← copy_area area user_space ms m
  copy_areas rest user_space ms' m'

unfoldable pub from_existed_user : ℕ → MemorySet → Machine → Outcome (MemorySet × Machine)
from_existed_user strampoline user_space m = do
  (ms₀, m₀) ← new_bare m
  (ms₁, m₁) ← map_trampoline strampoline ms₀ m₀
  copy_areas user_space.areas user_space ms₁ m₁
