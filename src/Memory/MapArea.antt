-- ===== src/Memory/MapArea.antt =====
-- os/src/memory/memory_set.rs, `MapArea`: a range of pages that are mapped in one way. The map
-- `data_frames` is a list of pages and frames in the order of the pages, as `BTreeMap` keeps it. A
-- call returns the area, the table and the machine that it leaves.
pub mod Frames
pub mod Filled
pub mod Emptied
pub mod Laws
use ch_os.Base.{
  ℕ, zero, suc, ◌+◌, ◌-◌, ◌*◌, ◌/◌, ◌%◌, ◌^◌, Bool, true, false, min, List, [], ◌∷◌, Option, none,
  some, ◌==◌, ltb, leb, if◌then◌else◌,
}
use ch_os.Base.Bytes.{read_le}
use ch_os.Base.Outcome.{Outcome, done, panic, assert, unwrap, ◌>>=◌, ◌>>◌}
use ch_os.Memory.Address.{
  SimpleRange, new_range, into_iter, visits, step, virt_floor, virt_ceil, page_size,
}
use ch_os.Memory.Frames.{dealloc}
use ch_os.Memory.Entry
use ch_os.Memory.PageTable.{Machine, PageTable, frame_alloc, map_page, unmap_page, translate}

pub data MapType : Type 0 where
  identical : MapType
  framed : MapType

-- `MapPermission`: the flags of an entry but for `V`.
abbrev pub perm_r : ℕ
perm_r = 2 ^ 1

abbrev pub perm_w : ℕ
perm_w = 2 ^ 2

abbrev pub perm_x : ℕ
perm_x = 2 ^ 3

abbrev pub perm_u : ℕ
perm_u = 2 ^ 4

pub record MapArea : Type 0 where
  pub vpn_range : SimpleRange
  pub data_frames : List (ℕ × ℕ)
  pub map_type : MapType
  pub map_perm : ℕ

-- `MapArea::new` and `from_another`
unfoldable pub new : ℕ → ℕ → MapType → ℕ → Outcome MapArea
new start_va end_va map_type map_perm = do
  range ← new_range (virt_floor start_va) (virt_ceil end_va)
  done (record { vpn_range = range; data_frames = []; map_type = map_type; map_perm = map_perm })

unfoldable pub from_another : MapArea → Outcome MapArea
from_another another = do
  range ← new_range another.vpn_range.l another.vpn_range.r
  done (record {
    vpn_range = range;
    data_frames = [];
    map_type = another.map_type;
    map_perm = another.map_perm;
  })

-- `BTreeMap::get`, `insert` and `remove`; a key stands once in the map. What `insert` replaces is `get` of the key before it.
abbrev pub frame_at : List (ℕ × ℕ) → ℕ → Option ℕ
frame_at [] vpn = none
frame_at ((v, f) ∷ rest) vpn = if v == vpn then some f else frame_at rest vpn

unfoldable pub insert_frame : List (ℕ × ℕ) → ℕ → ℕ → List (ℕ × ℕ)
insert_frame [] vpn frame = (vpn, frame) ∷ []
insert_frame ((v, f) ∷ rest) vpn frame =
    let deeper = insert_frame rest vpn frame in
    if ltb v vpn
    then (v, f) ∷ deeper
    else if v == vpn
    then (vpn, frame) ∷ rest
    else (vpn, frame) ∷ (v, f) ∷ rest

unfoldable pub remove_frame : List (ℕ × ℕ) → ℕ → List (ℕ × ℕ)
remove_frame [] vpn = []
remove_frame ((v, f) ∷ rest) vpn =
    let deeper = remove_frame rest vpn in if v == vpn then deeper else (v, f) ∷ deeper

-- `FrameTracker::drop` gives its frame back; `None` has nothing to drop.
unfoldable pub drop_frame : Option ℕ → Machine → Outcome Machine
drop_frame none m = done m
drop_frame (some f) m = do
  allocator' ← dealloc m.allocator f
  done (record m { allocator = allocator' })

-- The frame for a page: the match of `map_one`.
unfoldable pub choose_frame : MapType → MapArea → ℕ → Machine → Outcome (ℕ × MapArea × Machine)
choose_frame identical area vpn m = done (vpn, area, m)
choose_frame framed area vpn m = do
  (f, m') ← frame_alloc m
  m'' ← drop_frame (frame_at area.data_frames vpn) m'
  done (f, record area { data_frames = insert_frame area.data_frames vpn f }, m'')

unfoldable pub map_one : MapArea → PageTable → ℕ → Machine → Outcome (MapArea × PageTable × Machine)
map_one area pt vpn m = do
  (ppn, area', m') ← choose_frame area.map_type area vpn m
  (pt', m'') ← map_page vpn ppn area.map_perm pt m'
  done (area', pt', m'')

-- The frame of a page is released: the condition of `unmap_one`.
unfoldable pub release_frame : MapType → MapArea → ℕ → Machine → Outcome (MapArea × Machine)
release_frame identical area vpn m = done (area, m)
release_frame framed area vpn m = do
  m' ← drop_frame (frame_at area.data_frames vpn) m
  done (record area { data_frames = remove_frame area.data_frames vpn }, m')

unfoldable pub unmap_one : MapArea → PageTable → ℕ → Machine → Outcome (MapArea × Machine)
unmap_one area pt vpn m = do
  (area', m') ← release_frame area.map_type area vpn m
  m'' ← unmap_page vpn pt m'
  done (area', m'')

-- The pages of an area, as a `for` loop over its range visits them.
unfoldable pub pages : MapArea → List ℕ
pages area = visits (suc (area.vpn_range.r - area.vpn_range.l)) (into_iter area.vpn_range)

unfoldable pub map_pages :
    List ℕ → MapArea → PageTable → Machine → Outcome (MapArea × PageTable × Machine)
map_pages [] area pt m = done (area, pt, m)
map_pages (vpn ∷ rest) area pt m = do
  (area', pt', m') ← map_one area pt vpn m
  map_pages rest area' pt' m'

unfoldable pub map_area : MapArea → PageTable → Machine → Outcome (MapArea × PageTable × Machine)
map_area area pt m = map_pages (pages area) area pt m

unfoldable pub unmap_pages : List ℕ → MapArea → PageTable → Machine → Outcome (MapArea × Machine)
unmap_pages [] area pt m = done (area, m)
unmap_pages (vpn ∷ rest) area pt m = do
  (area', m') ← unmap_one area pt vpn m
  unmap_pages rest area' pt m'

unfoldable pub unmap_area : MapArea → PageTable → Machine → Outcome (MapArea × Machine)
unmap_area area pt m = unmap_pages (pages area) area pt m

-- `get_bytes_array`: a frame byte by byte, each word little-endian.
abbrev pub byte_of : (ℕ → ℕ → ℕ) → ℕ → ℕ → ℕ
byte_of words f i = words f (i / 8) / 256 ^ (i % 8) % 256

-- `dst[..n].copy_from_slice(src)`, where `dst` is the frame.
unfoldable pub write_bytes : (ℕ → ℕ → ℕ) → ℕ → ℕ → (ℕ → ℕ) → ℕ → ℕ → ℕ
write_bytes words frame n src p w =
    if p == frame
    then read_le 8 (λ i. if ltb i n then src i else byte_of words frame i) (8 * w)
    else words p w

-- Bytes in memory: the argument `&[u8]`.
pub record Slice : Type 0 where
  pub len : ℕ
  pub byte : ℕ → ℕ

-- The loop of `copy_data`, on fuel.
unfoldable pub copy_from : ℕ → PageTable → Slice → ℕ → ℕ → Machine → Outcome Machine
copy_from zero pt input start vpn m = panic
copy_from (suc fuel) pt input start vpn m = do
  bits ← unwrap (translate m.words pt vpn)
  let n = min input.len (start + page_size) - start
  let words' = write_bytes m.words (Entry.ppn bits) n (λ i. input.byte (start + i))
  let m' = record m { words = words' }
  let more = copy_from fuel pt input (start + page_size) (step vpn) m'
  if leb input.len (start + page_size) then done m' else more

abbrev pub is_framed : MapType → Bool
is_framed identical = false
is_framed framed = true

unfoldable pub copy_data : MapArea → PageTable → Slice → Machine → Outcome Machine
copy_data area pt input m = do
  assert (is_framed area.map_type)
  copy_from (suc (input.len / page_size)) pt input 0 area.vpn_range.l m
