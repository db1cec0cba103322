-- ===== src/Memory/MemorySet.antt =====
-- os/src/memory/memory_set.rs, `MemorySet`: a page table and the areas that are mapped in it. The
-- address of the trampoline's code, `strampoline` of the linker script, is a parameter.
pub mod Kernel
pub mod Elf
pub mod Fork
use ch_os.Base.{
  ℕ, ◌+◌, ◌-◌, ◌*◌, ◌^◌, Bool, true, false, List, [], ◌∷◌, ◌++◌, Option, none, some, ◌==◌, bit_or,
  if◌then◌else◌,
}
use ch_os.Base.Outcome.{Outcome, done, panic, assert, ◌>>=◌, ◌>>◌}
use ch_os.Memory.Address.{page_size, virt_addr, phys_addr, virt_to_page, phys_to_page}
use ch_os.Memory.Entry.{flag_r, flag_x}
use ch_os.Memory.PageTable.{Machine, PageTable, map_page}
use ch_os.Memory.PageTable
use ch_os.Memory.MapArea.{
  MapArea, MapType, framed, Slice, map_area, unmap_area, copy_data, drop_frame,
}
use ch_os.Memory.MapArea

-- os/src/config.rs: `usize::MAX - PAGE_SIZE + 1` and the page below it.
abbrev pub trampoline : ℕ
trampoline = 2 ^ 64 - 1 - page_size + 1

abbrev pub trap_context : ℕ
trap_context = trampoline - page_size

abbrev pub user_stack_size : ℕ
user_stack_size = 4096 * 2

abbrev pub memory_end : ℕ
memory_end = 0x80800000

pub record MemorySet : Type 0 where
  pub page_table : PageTable
  pub areas : List MapArea

unfoldable pub new_bare : Machine → Outcome (MemorySet × Machine)
new_bare m = do (pt, m') ← PageTable.new m; done (record { page_table = pt; areas = [] }, m')

pub token : MemorySet → ℕ
token ms = PageTable.token ms.page_table

-- The argument `data: Option<&[u8]>` of `push`.
unfoldable pub fill_area : MapArea → PageTable → Option Slice → Machine → Outcome Machine
fill_area area pt none m = done m
fill_area area pt (some input) m = copy_data area pt input m

unfoldable pub push : MemorySet → MapArea → Option Slice → Machine → Outcome (MemorySet × Machine)
push ms area input m = do
  (area', pt', m') ← map_area area ms.page_table m
  m'' ← fill_area area' pt' input m'
  done (record { page_table = pt'; areas = ms.areas ++ (area' ∷ []) }, m'')

unfoldable pub map_trampoline : ℕ → MemorySet → Machine → Outcome (MemorySet × Machine)
map_trampoline strampoline ms m = do
  vpn ← virt_to_page (virt_addr trampoline)
  ppn ← phys_to_page (phys_addr strampoline)
  (pt', m') ← map_page vpn ppn (bit_or flag_r flag_x) ms.page_table m
  done (record ms { page_table = pt' }, m')

-- A `BTreeMap` drops its frames in the order of the keys.
unfoldable pub drop_frames : List (ℕ × ℕ) → Machine → Outcome Machine
drop_frames [] m = done m
drop_frames ((v, f) ∷ rest) m = do m' ← drop_frame (some f) m; drop_frames rest m'

-- The first area that starts at a page is unmapped and removed; what is left of it is dropped.
unfoldable pub remove_first :
    List MapArea → ℕ → PageTable → Machine → Outcome (List MapArea × Machine)
remove_first [] start_vpn pt m = done ([], m)
remove_first (area ∷ rest) start_vpn pt m =
    let found = (do
      (area', m') ← unmap_area area pt m
      m'' ← drop_frames area'.data_frames m'
      done (rest, m'')) in
    let later = (do (rest', m') ← remove_first rest start_vpn pt m; done (area ∷ rest', m')) in
    if area.vpn_range.l == start_vpn then found else later

unfoldable pub remove_area_with_start_vpn : MemorySet → ℕ → Machine → Outcome (MemorySet × Machine)
remove_area_with_start_vpn ms start_vpn m = do
  (areas', m') ← remove_first ms.areas start_vpn ms.page_table m
  done (record ms { areas = areas' }, m')

unfoldable pub insert_framed_area : MemorySet → ℕ → ℕ → ℕ → Machine → Outcome (MemorySet × Machine)
insert_framed_area ms start_va end_va permission m = do
  area ← MapArea.new start_va end_va framed permission
  push ms area none m

unfoldable pub translate : MemorySet → ℕ → Machine → Option ℕ
translate ms vpn m = PageTable.translate m.words ms.page_table vpn

-- `areas.clear()` drops the areas in order.
unfoldable pub drop_areas : List MapArea → Machine → Outcome Machine
drop_areas [] m = done m
drop_areas (area ∷ rest) m = do m' ← drop_frames area.data_frames m; drop_areas rest m'

unfoldable pub recycle_data_pages : MemorySet → Machine → Outcome (MemorySet × Machine)
recycle_data_pages ms m = do m' ← drop_areas ms.areas m; done (record ms { areas = [] }, m')
