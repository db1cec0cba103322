-- ===== src/Memory/MapArea/Frames.antt =====
-- The frames of an area: they are handed out, are no node of the table, and belong to one page each.
use ch_os.Base.{
  ℕ, ◌+◌, ◌≤◌, ◌<◌, ◌^◌, ◌≡◌, ◌≢◌, refl, ◌∙◌, ap, true, false, List, [], ◌∷◌, Option, none, some,
  arith, ◌==◌, if◌then◌else◌, bit_or,
}
use ch_os.Base.Outcome.{Meets, Meets->>=}
use ch_os.Memory.Entry
use ch_os.Memory.Entry.{flag_v}
use ch_os.Memory.Frames.Laws.{is_allocated, free_frames}
use ch_os.Memory.PageTable.{Machine, PageTable, frame_alloc}
use ch_os.Memory.PageTable.Tree.{Node}
use ch_os.Memory.PageTable.Grow.{IsTable, Kept, Kept-refl}
use ch_os.Memory.PageTable.Refine.{page_entry}
use ch_os.Memory.PageTable.Data.{Taken, frame_alloc-Taken}
use ch_os.Memory.MapArea.{
  MapArea, MapType, identical, framed, frame_at, insert_frame, drop_frame, choose_frame,
}

pub frame_at-insert_frame :
    (fs : List (ℕ × ℕ)) (vpn f v : ℕ)
    → frame_at (insert_frame fs vpn f) v ≡ (if v == vpn then some f else frame_at fs v)
unfolding insert_frame
frame_at-insert_frame [] vpn f v = ground arith
frame_at-insert_frame ((v', f') ∷ rest) vpn f v = ground (arith, frame_at-insert_frame rest vpn f v)

-- The frames of an area are handed out, are no node of the table, and belong to one page each.
pub record HasFrames (start : ℕ) (owner : ℕ → Option Node) (m : Machine) (fs : List (ℕ × ℕ))
    : Type 0 where
  pub allocated : (v f : ℕ) → frame_at fs v ≡ some f → is_allocated start m.allocator f ≡ true
  pub unowned : (v f : ℕ) → frame_at fs v ≡ some f → owner f ≡ none
  pub distinct : (v v' f : ℕ) → frame_at fs v ≡ some f → frame_at fs v' ≡ some f → v ≡ v'

pub HasFrames-Kept :
    (start : ℕ) {owner owner' : ℕ → Option Node} {m m' : Machine} (fs : List (ℕ × ℕ))
    → HasFrames start owner m fs
    → Kept start owner m owner' m'
    → HasFrames start owner' m' fs
HasFrames-Kept start fs h k = record {
  allocated = λ v f e. k.allocated f (h.allocated v f e);
  unowned = λ v f e. k.unowned f (h.allocated v f e) (h.unowned v f e);
  distinct = h.distinct;
}

-- A frame that is handed out anew is added to them.
HasFrames-insert :
    (start : ℕ) {owner : ℕ → Option Node} {pt : PageTable} {m m' : Machine} {g : ℕ}
    (fs : List (ℕ × ℕ))
    → HasFrames start owner m fs
    → Taken start owner pt m g m'
    → (vpn : ℕ) → HasFrames start owner m' (insert_frame fs vpn g)
HasFrames-insert start {g} fs h r vpn =
    let look = frame_at-insert_frame fs vpn g in
    record {
      allocated = λ v f e. ground (arith, look v, r.allocated, h.allocated v f, r.kept.allocated f);
      unowned = λ v f e. ground (arith, look v, r.unowned, h.unowned v f);
      distinct = λ v v' f e e'.
          ground (
            arith,
            look v,
            look v',
            r.unused,
            h.allocated v f,
            h.allocated v' f,
            h.distinct v v' f,
          );
    }

-- The frame that a page of an area is mapped to, and its entry.
abbrev pub frame_of : MapType → List (ℕ × ℕ) → ℕ → Option ℕ
frame_of identical fs v = some v
frame_of framed fs v = frame_at fs v

abbrev pub entry_of : MapArea → ℕ → Option ℕ
entry_of area v = elim (frame_of area.map_type area.data_frames v) [
  | none ↦ none
  | some f ↦ some (Entry.entry f (bit_or area.map_perm flag_v))
]

pub frame_of-others :
    (type : MapType) (fs fs' : List (ℕ × ℕ)) (v : ℕ)
    → frame_at fs' v ≡ frame_at fs v
    → frame_of type fs' v ≡ frame_of type fs v
frame_of-others identical fs fs' v e = refl
frame_of-others framed fs fs' v e = e

pub entry_of-others :
    (area area' : MapArea)
    → area' ≡ record area { data_frames = area'.data_frames }
    → (v : ℕ) → frame_at area'.data_frames v ≡ frame_at area.data_frames v
    → entry_of area' v ≡ entry_of area v
entry_of-others area area' same v e =
    ap (λ a. entry_of a v) same
    ∙ ap {A = Option ℕ} {B = Option ℕ}
        (λ o. elim o [ none ↦ none | some f ↦ some (Entry.entry f (bit_or area.map_perm flag_v)) ])
        (frame_of-others area.map_type area.data_frames area'.data_frames v e)

-- What `choose_frame` gives.
pub record Chosen (start : ℕ) (owner : ℕ → Option Node) (pt : PageTable) (m : Machine)
    (area : MapArea) (vpn ppn : ℕ) (area' : MapArea) (m' : Machine) : Type 0 where
  pub table : IsTable start owner pt m'
  pub same_pages : (v : ℕ) → page_entry m'.words pt v ≡ page_entry m.words pt v
  pub kept : Kept start owner m owner m'
  pub count : free_frames m.allocator ≤ free_frames m'.allocator + 1
  pub small : ppn < 2 ^ 44
  pub frame : frame_of area.map_type area'.data_frames vpn ≡ some ppn
  pub others : (v : ℕ) → v ≢ vpn → frame_at area'.data_frames v ≡ frame_at area.data_frames v
  pub held : HasFrames start owner m' area'.data_frames
  pub same_area : area' ≡ record area { data_frames = area'.data_frames }
  pub fresh :
      (f : ℕ) → frame_at area'.data_frames vpn ≡ some f → is_allocated start m.allocator f ≡ false

module _ (start : ℕ) {owner : ℕ → Option Node} (pt : PageTable) (m : Machine)
    (t : IsTable start owner pt m) (vpn : ℕ) (hp : vpn < 2 ^ 27) where
  pub choose_frame-Chosen :
      (type : MapType) (area : MapArea)
      → area.map_type ≡ type
      → HasFrames start owner m area.data_frames
      → frame_at area.data_frames vpn ≡ none
      → Meets
          (free_frames m.allocator ≡ 0)
          (λ (ppn, area', m'). Chosen start owner pt m area vpn ppn area' m')
          (choose_frame type area vpn m)
  unfolding choose_frame drop_frame
  choose_frame-Chosen identical area e held missing = record {
    table = t;
    same_pages = λ v. refl;
    kept = Kept-refl start owner m;
    count = omega arith;
    small = omega arith;
    frame = rw e refl;
    others = λ v ne. refl;
    held = held;
    same_area = refl;
    fresh = λ f e. cc (e, missing);
  }
  choose_frame-Chosen framed area e held missing =
      Meets->>= _ (frame_alloc m) _ (frame_alloc-Taken start pt m t) (λ x. x)
        (λ (g, m') r. rw missing (record {
          table = r.table;
          same_pages = r.same_pages;
          kept = r.kept;
          count = omega (arith, r.count);
          small = r.small;
          frame = rw (e, frame_at-insert_frame area.data_frames vpn g vpn) (ground arith);
          others = λ v ne. ground (arith, frame_at-insert_frame area.data_frames vpn g v);
          held = HasFrames-insert start area.data_frames held r vpn;
          same_area = refl;
          fresh = λ f h. ground (arith, frame_at-insert_frame area.data_frames vpn g vpn, r.unused);
        }))
