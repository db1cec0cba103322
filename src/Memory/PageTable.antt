-- ===== src/Memory/PageTable.antt =====
-- os/src/memory/page_table.rs, `PageTable`, with `frame_alloc` and `FrameTracker` of
-- os/src/memory/frame_allocator.rs. Physical memory is read through `get_pte_array`: the entry of a
-- frame at an index. A reference to an entry is that pair. A `FrameTracker` is its page number.
pub mod Tree
pub mod Grow
pub mod Refine
pub mod Map
pub mod Data
use ch_os.Base.{
  ℕ, zero, suc, ◌+◌, ◌-◌, ◌*◌, ◌/◌, ◌%◌, ◌^◌, Bool, true, false, not, ◌&&◌, bit_and, bit_or, List,
  [], ◌∷◌, Option, none, some, ◌==◌, if◌then◌else◌,
}
use mathlib.Core.Option
use ch_os.Base.Bits.{add_usize}
use ch_os.Base.Outcome.{Outcome, done, panic, assert, unwrap, ◌>>=◌, ◌>>◌}
use ch_os.Memory.Address.{indexes, phys_page_num, phys_addr, virt_floor, virt_offset, page_to_phys}
use ch_os.Memory.Frames.{StackFrameAllocator}
use ch_os.Memory.Frames
use ch_os.Memory.Entry
use ch_os.Memory.Entry.{flag_v}

-- `FRAME_ALLOCATOR` and the contents of the frames.
pub record Machine : Type 0 where
  pub words : ℕ → ℕ → ℕ
  pub allocator : StackFrameAllocator

-- `FrameTracker::new` clears the frame.
abbrev pub clear_frame : (ℕ → ℕ → ℕ) → ℕ → ℕ → ℕ → ℕ
clear_frame words f p i = if p == f then 0 else words p i

abbrev pub write_word : (ℕ → ℕ → ℕ) → ℕ → ℕ → ℕ → ℕ → ℕ → ℕ
write_word words f i bits p j = if (p == f) && (j == i) then bits else words p j

-- `frame_alloc().unwrap()`
unfoldable pub frame_alloc : Machine → Outcome (ℕ × Machine)
frame_alloc m =
    let (o, allocator') = Frames.alloc m.allocator in
    elim o [
      | none ↦ panic
      | some f ↦ done (f, record { words = clear_frame m.words f; allocator = allocator' })
    ]

-- The last frame that was pushed stands first in `frames`.
pub record PageTable : Type 0 where
  pub root_ppn : ℕ
  pub frames : List ℕ

pub new : Machine → Outcome (PageTable × Machine)
new m = do (f, m') ← frame_alloc m; done (record { root_ppn = f; frames = f ∷ [] }, m')

-- The loop of `find_pte` over the indexes that are left, at the place `i`.
unfoldable pub find_from : (ℕ → ℕ → ℕ) → List ℕ → ℕ → ℕ → Option (ℕ × ℕ)
find_from words [] i f = none
find_from words (idx ∷ rest) i f =
    let deeper = find_from words rest (i + 1) (Entry.ppn (words f idx)) in
    if i == 2 then some (f, idx) else if Entry.is_valid (words f idx) then deeper else none

unfoldable pub find_pte : (ℕ → ℕ → ℕ) → PageTable → ℕ → Option (ℕ × ℕ)
unfolding find_from
find_pte words pt vpn = find_from words (indexes vpn) 0 pt.root_ppn

-- The body of the loop of `find_pte_create`: a node that is missing is made.
pub ensure : ℕ → ℕ → PageTable → Machine → Outcome (PageTable × Machine)
ensure f idx pt m = if Entry.is_valid (m.words f idx) then done (pt, m) else do
  (g, m') ← frame_alloc m
  done (
    record pt { frames = g ∷ pt.frames },
    record m' { words = write_word m'.words f idx (Entry.entry g flag_v) },
  )

pub create_from :
    List ℕ → ℕ → ℕ → PageTable → Machine → Outcome (Option (ℕ × ℕ) × PageTable × Machine)
create_from [] i f pt m = done (none, pt, m)
create_from (idx ∷ rest) i f pt m =
    let deeper = (do
      (pt', m') ← ensure f idx pt m
      create_from rest (i + 1) (Entry.ppn (m'.words f idx)) pt' m') in
    if i == 2 then done (some (f, idx), pt, m) else deeper

pub find_pte_create : ℕ → PageTable → Machine → Outcome (Option (ℕ × ℕ) × PageTable × Machine)
unfolding create_from
find_pte_create vpn pt m = create_from (indexes vpn) 0 pt.root_ppn pt m

pub map_page : ℕ → ℕ → ℕ → PageTable → Machine → Outcome (PageTable × Machine)
map_page vpn ppn flags pt m = do
  (found, pt', m') ← find_pte_create vpn pt m
  (f, i) ← unwrap found
  assert (not (Entry.is_valid (m'.words f i)))
  done (pt', record m' { words = write_word m'.words f i (Entry.entry ppn (bit_or flags flag_v)) })

pub unmap_page : ℕ → PageTable → Machine → Outcome Machine
unmap_page vpn pt m = do
  (f, i) ← unwrap (find_pte m.words pt vpn)
  assert (Entry.is_valid (m.words f i))
  done (record m { words = write_word m.words f i Entry.empty })

-- `from_token` and `token`
pub from_token : ℕ → PageTable
from_token satp = record { root_ppn = phys_page_num (bit_and satp (2 ^ 44 - 1)); frames = [] }

pub token : PageTable → ℕ
token pt = bit_or (8 * 2 ^ 60) pt.root_ppn

unfoldable pub translate : (ℕ → ℕ → ℕ) → PageTable → ℕ → Option ℕ
translate words pt vpn = Option.map (λ (f, i). words f i) (find_pte words pt vpn)

unfoldable pub translate_va : (ℕ → ℕ → ℕ) → PageTable → ℕ → Option ℕ
translate_va words pt va =
    Option.map
      (λ (f, i). phys_addr (add_usize (page_to_phys (Entry.ppn (words f i))) (virt_offset va)))
      (find_pte words pt (virt_floor va))
