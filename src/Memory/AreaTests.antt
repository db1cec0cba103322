-- ===== src/Memory/AreaTests.antt =====
-- Runs of the areas of pages at concrete states.
use ch_os.Base.{
  ℕ, ◌+◌, ◌*◌, ◌-◌, ◌^◌, ◌<◌, ◌≡◌, ◌≢◌, ◌⊎◌, inr, refl, subst, true, ◌&&◌, [], ◌∷◌, Option, none,
  some, arith, ◌==◌, update, if◌then◌else◌, contains,
}
use ch_os.Base.Outcome.{done, Meets}
use ch_os.Memory.Address
use ch_os.Memory.Address.{phys_to_page, phys_addr}
use ch_os.Memory.Entry
use ch_os.Memory.Entry.{is_valid-zero}
use ch_os.Memory.Frames.Laws.{free_frames}
use ch_os.Memory.PageTable.{Machine, PageTable}
use ch_os.Memory.PageTable
use ch_os.Memory.PageTable.Tree.{Node, top, mid, leaf}
use ch_os.Memory.PageTable.Grow.{IsTable}
use ch_os.Memory.PageTable.Refine.{page_entry}
use ch_os.Memory.MapArea.{MapArea, framed, map_area, unmap_area}
use ch_os.Memory.MapArea.Frames.{HasFrames, entry_of}
use ch_os.Memory.MapArea.Emptied.{HasAll}
use ch_os.Memory.MapArea.Laws.{range_of, unmap_area-map_area}
use ch_os.Memory.MemorySet.{MemorySet}
use ch_os.Memory.MemorySet.Fork.{from_existed_user}
use ch_os.Memory.MemorySet.Fork.Area.{IsMapped}
use ch_os.Memory.MemorySet.Fork.Areas.{page_count}
use ch_os.Memory.MemorySet.Fork.Whole.{SpaceCopied, from_existed_user-SpaceCopied}

-- A table that maps page 5 to frame 30, in the frames 10, 11 and 12.
abbrev words : ℕ → ℕ → ℕ
words p i =
    if (p == 10) && (i == 0)
    then 11 * 1024 + 1
    else if (p == 11) && (i == 0)
    then 12 * 1024 + 1
    else if (p == 12) && (i == 5)
    then 30 * 1024 + 7
    else 0

abbrev machine : Machine
machine = record { words = words; allocator = record { current = 40; end = 100; recycled = [] } }

abbrev table : PageTable
table = record { root_ppn = 10; frames = 12 ∷ 11 ∷ 10 ∷ [] }

abbrev owner : ℕ → Option Node
owner = update (update (update (λ p. none) 10 (some top)) 11 (some (mid 0))) 12 (some (leaf 0 0))

links : (Entry.ppn (11 * 1024 + 1) ≡ 11) × (Entry.ppn (12 * 1024 + 1) ≡ 12)
unfolding Entry.ppn Address.phys_page_num
links = (refl, refl)

table-IsTable : IsTable 10 owner table machine
table-IsTable = record {
  tree = record {
    rooted = refl;
    linked = λ f i n c o p valid. ground (arith, is_valid-zero, links.0, links.1);
  };
  frames_valid = ground arith;
  owned = λ f n o. ground arith;
}

-- Pages 6 and 7, to be mapped.
abbrev area : MapArea
area = record {
  vpn_range = record { l = 6; r = 8 };
  data_frames = [];
  map_type = framed;
  map_perm = 22;
}

unmap_area-map_area_example :
    Meets
      ((free_frames machine.allocator < 3 * (8 - 6))
        ⊎ ((v : ℕ) × (contains v (range_of area) ≡ true)
            × (page_entry machine.words table v ≢ none)))
      (λ (area', pt', m').
        (area'' : MapArea) × (m'' : Machine) × (unmap_area area' pt' m' ≡ done (area'', m''))
        × ((v : ℕ) → v < 2 ^ 27 → page_entry m''.words pt' v ≡ page_entry machine.words table v))
      (map_area area table machine)
unmap_area-map_area_example =
    unmap_area-map_area 10 table machine table-IsTable area (omega arith, omega arith) refl
      (omega arith)

-- Page 5, as an area that is mapped.
abbrev mapped_area : MapArea
mapped_area = record {
  vpn_range = record { l = 5; r = 6 };
  data_frames = (5, 30) ∷ [];
  map_type = framed;
  map_perm = 6;
}

mapped_area-HasFrames : HasFrames 10 owner machine mapped_area.data_frames
mapped_area-HasFrames = record {
  allocated = λ v f e. ground arith;
  unowned = λ v f e. ground arith;
  distinct = λ v v' f e e'. ground arith;
}

mapped_area-HasAll : HasAll mapped_area (range_of mapped_area)
mapped_area-HasAll v h = inr (30, ground arith)

mapped_area-IsMapped : IsMapped 10 owner table mapped_area machine
unfolding Entry.ppn Entry.entry Address.phys_page_num PageTable.find_pte PageTable.find_from
    PageTable.translate Address.indexes Address.indexes_from Entry.is_valid Entry.flags
mapped_area-IsMapped = record {
  table = table-IsTable;
  held = mapped_area-HasFrames;
  is_framed = refl;
  range = (omega arith, omega arith);
  perm = omega arith;
  present = λ v h. ground arith;
  entries = λ v h.
      let e : 5 ≡ v = ground arith in
      subst (λ v. page_entry words table v ≡ entry_of mapped_area v) e refl;
}

-- An address space with that area, to be copied.
abbrev parent : MemorySet
parent = record { page_table = table; areas = mapped_area ∷ [] }

code_frame : phys_to_page (phys_addr (0x80001 * 4096)) ≡ done 0x80001
unfolding phys_to_page phys_addr Address.phys_offset Address.phys_floor
code_frame = refl

from_existed_user-SpaceCopied_example :
    Meets
      (free_frames machine.allocator < 3 * page_count parent.areas + 3)
      (λ (ms', m'). SpaceCopied 10 0x80001 parent machine ms' m')
      (from_existed_user (0x80001 * 4096) parent machine)
from_existed_user-SpaceCopied_example =
    from_existed_user-SpaceCopied 10 owner parent machine 0x80001 table-IsTable ((λ v h. refl), tt)
      (mapped_area-IsMapped, tt) refl (0x80001 * 4096) code_frame (omega arith)
