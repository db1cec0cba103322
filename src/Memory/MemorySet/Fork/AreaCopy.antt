-- ===== src/Memory/MemorySet/Fork/AreaCopy.antt =====
-- The loop body of `from_existed_user`: one area is copied.
use ch_os.Memory.Entry
use ch_os.Base.{
  ℕ, ◌+◌, ◌*◌, ◌-◌, ◌<◌, ◌≤◌, ◌^◌, ◌≡◌, ◌≢◌, ◌⊎◌, inl, inr, refl, sym, ap, ◌∙◌, subst, true, false,
  List, [], ◌∷◌, ◌++◌, Option, none, some, arith, leb, contains, bit_or, Option-cases,
}
use ch_os.Base.Bits.{bit_or-two-pow}
use ch_os.Base.Outcome.{Outcome, done, panic, ◌>>=◌, Meets, Meets->>=, Meets-mono}
use ch_os.Memory.Address.{new_range}
use ch_os.Memory.Entry.{flag_v}
use ch_os.Memory.Frames.{StackFrameAllocator}
use ch_os.Memory.Frames.Laws.{IsValid, is_allocated, free_frames}
use ch_os.Memory.PageTable.{Machine, PageTable}
use ch_os.Memory.PageTable.Tree.{Node}
use ch_os.Memory.PageTable.Grow.{IsTable, Kept}
use ch_os.Memory.PageTable.Refine.{page_entry}
use ch_os.Memory.PageTable.Data.{SameNodes, IsTree-same, page_entry-same}
use ch_os.Memory.MapArea.{MapArea, framed, from_another, frame_at, map_area, pages}
use ch_os.Memory.MapArea.Frames.{frame_of, entry_of}
use ch_os.Memory.MapArea.Filled.{Filled}
use ch_os.Memory.MapArea.Laws.{
  range_of, IsRange, map_area-Filled, pages-range_of, Distinct-count_up, length-count_up,
}
use ch_os.Memory.MemorySet.{MemorySet, push, fill_area}
use ch_os.Memory.MemorySet.Fork.{copy_pages, copy_area}
use ch_os.Memory.MemorySet.Fork.Pages.{MapsTo, Copied, copy_pages-Copied}
use ch_os.Memory.MemorySet.Fork.Area.{IsMapped, Apart, AreaCopied, range-small}

-- The frame of a page; 0 where it has none.
abbrev frame_no : List (ℕ × ℕ) → ℕ → ℕ
frame_no fs v = elim (frame_at fs v) [ none ↦ 0 | some f ↦ f ]

frame_no-some :
    (fs : List (ℕ × ℕ)) (v : ℕ) → frame_at fs v ≢ none → frame_at fs v ≡ some (frame_no fs v)
frame_no-some fs v h = elim (Option-cases (frame_at fs v)) [
  | inl e ↦ absurd (h e)
  | inr (f, e) ↦ ground (arith, e)
]

>>=-assoc :
    {A B C : Type 0} (o : Outcome A) (f : A → Outcome B) (g : B → Outcome C)
    → ((o >>= f) >>= g) ≡ (o >>= λ a. (f a >>= g))
>>=-assoc (done a) f g = refl
>>=-assoc panic f g = refl

some_injective : {a b : ℕ} → some a ≡ some b → a ≡ b
some_injective e = cc e

-- The area that is mapped anew.
abbrev emptied : MapArea → MapArea
emptied area = record area { data_frames = [] }

from_another-emptied : (area : MapArea) → IsRange area → from_another area ≡ done (emptied area)
unfolding from_another new_range
from_another-emptied area range =
    let ordered : leb area.vpn_range.l area.vpn_range.r ≡ true = ground arith in rw ordered refl

-- The rest of `copy_area` when the area is mapped.
abbrev copy_mapped :
    MapArea → MemorySet → MemorySet → MapArea → PageTable → Machine → Outcome (MemorySet × Machine)
copy_mapped area user ms area' pt' m' =
    let ms' : MemorySet = record { page_table = pt'; areas = ms.areas ++ (area' ∷ []) } in
    copy_pages (pages area) user ms' m' >>= λ m''. done (ms', m'')

copy_area-map_area :
    (area : MapArea) (user ms : MemorySet) (m : Machine)
    → IsRange area
    → copy_area area user ms m ≡ (
        map_area (emptied area) ms.page_table m >>= λ (area', pt', m').
        copy_mapped area user ms area' pt' m')
unfolding copy_area push fill_area
copy_area-map_area area user ms m range =
    rw (from_another-emptied area range) (>>=-assoc (map_area (emptied area) ms.page_table m) _ _)

-- A frame that a valid allocator has handed out has a number of 44 bits.
allocated-small :
    (start : ℕ) {s : StackFrameAllocator} (p : ℕ)
    → IsValid start s
    → is_allocated start s p ≡ true
    → p < 2 ^ 44
allocated-small start p valid h = ground arith

pub entry_of-framed :
    (area : MapArea) (v f : ℕ)
    → area.map_type ≡ framed
    → frame_at area.data_frames v ≡ some f
    → entry_of area v ≡ some (Entry.entry f (bit_or area.map_perm flag_v))
entry_of-framed area v f e at =
    let frame : frame_of area.map_type area.data_frames v ≡ some f =
      subst (λ t. frame_of t area.data_frames v ≡ some f) (sym e) at in
    ap {A = Option ℕ} {B = Option ℕ}
      (λ o. elim o [ none ↦ none | some f ↦ some (Entry.entry f (bit_or area.map_perm flag_v)) ])
      frame

flags_small : (perm : ℕ) → perm < 2 ^ 8 → bit_or perm flag_v < 2 ^ 8
flags_small perm h = omega (arith, bit_or-two-pow 0 perm)

module _ (start : ℕ) {owner owner' : ℕ → Option Node} (user ms : MemorySet) (area : MapArea)
    (m : Machine) (parent : IsMapped start owner user.page_table area m)
    (apart : Apart owner owner' area) (area' : MapArea) (pt' : PageTable) (m' : Machine)
    (f : Filled start owner' ms.page_table m (range_of area) (emptied area) area' pt' m') where
  abbrev src : ℕ → ℕ
  src = frame_no area.data_frames

  abbrev dst : ℕ → ℕ
  dst = frame_no area'.data_frames

  abbrev flags : ℕ
  flags = bit_or area.map_perm flag_v

  abbrev ms' : MemorySet
  ms' = record { page_table = pt'; areas = ms.areas ++ (area' ∷ []) }

  src-at : (v : ℕ) → contains v (range_of area) ≡ true → frame_at area.data_frames v ≡ some (src v)
  src-at v h = frame_no-some area.data_frames v (parent.present v h)

  dst-present : (v : ℕ) → contains v (range_of area) ≡ true → frame_at area'.data_frames v ≢ none
  dst-present v h =
      subst (λ t. frame_of t area'.data_frames v ≢ none) parent.is_framed (f.present v h)

  dst-at : (v : ℕ) → contains v (range_of area) ≡ true → frame_at area'.data_frames v ≡ some (dst v)
  dst-at v h = frame_no-some area'.data_frames v (dst-present v h)

  dst-unused :
      (v : ℕ) → contains v (range_of area) ≡ true → is_allocated start m.allocator (dst v) ≡ false
  dst-unused v h = f.fresh v (dst v) h (dst-at v h)

  -- The parent's table is untouched so far.
  parent-same : SameNodes owner m.words m'.words
  parent-same q i n o = f.kept.same_data q i (parent.table.owned q n o) (apart.nodes q n o)

  parent-MapsTo : MapsTo owner user m' (range_of area) src flags dst
  parent-MapsTo = record {
    tree = IsTree-same parent.table.tree parent-same;
    entries = λ v h.
        page_entry-same user.page_table v parent.table.tree parent-same
        ∙ parent.entries v h
        ∙ entry_of-framed area v (src v) parent.is_framed (src-at v h);
    small = λ v h.
        allocated-small start (src v) parent.table.frames_valid
          (parent.held.allocated v (src v) (src-at v h));
    apart = λ v h. elim (Option-cases (owner (dst v))) [
      | inl e ↦ e
      | inr (n, e) ↦ cc (parent.table.owned (dst v) n e, dst-unused v h)
    ];
  }

  child-type : area'.map_type ≡ framed
  child-type = ap (λ (a : MapArea). a.map_type) f.same_area ∙ parent.is_framed

  child-entry :
      (v : ℕ)
      → contains v (range_of area) ≡ true
      → entry_of area' v ≡ some (Entry.entry (dst v) flags)
  child-entry v h =
      entry_of-framed area' v (dst v) child-type (dst-at v h)
      ∙ ap (λ (a : MapArea). some (Entry.entry (dst v) (bit_or a.map_perm flag_v))) f.same_area

  child-MapsTo : MapsTo f.owner' ms' m' (range_of area) dst flags dst
  child-MapsTo = record {
    tree = f.table.tree;
    entries = λ v h. f.pages v (range-small area v parent.range h) ∙ rw h (child-entry v h);
    small = λ v h.
        allocated-small start (dst v) f.table.frames_valid
          (f.held.allocated v (dst v) (dst-at v h));
    apart = λ v h. f.held.unowned v (dst v) (dst-at v h);
  }

  contents_moved :
      (m'' : Machine) × (copy_pages (range_of area) user ms' m' ≡ done m'')
      × Copied m' (range_of area) src dst m''
  contents_moved =
      copy_pages-Copied user ms' owner f.owner' src dst flags
        (flags_small area.map_perm parent.perm) (range_of area) m' (Distinct-count_up _ _)
        parent-MapsTo child-MapsTo
        (λ v v' h h' e. f.held.distinct v v' (dst v) (dst-at v h) (dst-at v' h' ∙ ap some (sym e)))
        (λ v v' h h' e. cc (parent.held.allocated v (src v) (src-at v h), dst-unused v' h', e))

  -- The copy leaves what was handed out before, and the child's table.
  child-AreaCopied :
      (m'' : Machine)
      → Copied m' (range_of area) src dst m''
      → AreaCopied start owner' user.page_table ms area m ms' m''
  child-AreaCopied m'' c =
      let nodes_same : SameNodes f.owner' m'.words m''.words =
        λ q i n o. c.others q i (λ v h e. cc (f.held.unowned v (dst v) (dst-at v h), o, e)) in
      let kept : Kept start owner' m f.owner' m'' = record {
        allocated = λ q h. rw c.same_allocator (f.kept.allocated q h);
        unowned = f.kept.unowned;
        same_data = λ q w h o.
            c.others q w (λ v hv e. cc (h, dst-unused v hv, e)) ∙ f.kept.same_data q w h o;
      } in
      let same_range : range_of area' ≡ range_of area = ap range_of f.same_area in
      let in_range =
        λ (v : ℕ) (h : contains v (range_of area') ≡ true). ap (contains v) (sym same_range) ∙ h in
      record {
        area' = area';
        owner'' = f.owner';
        areas = refl;
        copy = record {
          same_area = f.same_area;
          mapped = record {
            table = record {
              tree = IsTree-same f.table.tree nodes_same;
              frames_valid = rw c.same_allocator f.table.frames_valid;
              owned = λ q n o. rw c.same_allocator (f.table.owned q n o);
            };
            held = record {
              allocated = λ v x e. rw c.same_allocator (f.held.allocated v x e);
              unowned = f.held.unowned;
              distinct = f.held.distinct;
            };
            is_framed = child-type;
            range = subst IsRange (sym f.same_area) parent.range;
            perm = subst (λ (a : MapArea). a.map_perm < 2 ^ 8) (sym f.same_area) parent.perm;
            present = λ v h. dst-present v (in_range v h);
            entries = λ v h.
                page_entry-same pt' v f.table.tree nodes_same
                ∙ f.pages v (range-small area v parent.range (in_range v h))
                ∙ rw (in_range v h) refl;
          };
          fresh = f.fresh;
          contents = λ v x y w h ex ey.
              ap (λ q. m''.words q w) (some_injective (sym ey ∙ dst-at v h))
              ∙ c.contents v w h
              ∙ f.kept.same_data (src v) w (parent.held.allocated v (src v) (src-at v h))
                  (apart.data_apart v (src v) (src-at v h))
              ∙ ap (λ q. m.words q w) (some_injective (sym (src-at v h) ∙ ex));
        };
        other_pages =
            λ v hv h. page_entry-same pt' v f.table.tree nodes_same ∙ f.pages v hv ∙ rw h refl;
        count = rw c.same_allocator (
            subst (λ n. free_frames m.allocator ≤ free_frames m'.allocator + 3 * n)
              (length-count_up (area.vpn_range.r - area.vpn_range.l) area.vpn_range.l) f.count);
        kept = kept;
        same_parent = λ v.
            page_entry-same user.page_table v parent.table.tree
              (λ q i n o. kept.same_data q i (parent.table.owned q n o) (apart.nodes q n o));
      }

  copy_mapped-AreaCopied :
      Meets ⊥
        (λ (ms', m''). AreaCopied start owner' user.page_table ms area m ms' m'')
        (copy_mapped area user ms area' pt' m')
  copy_mapped-AreaCopied =
      let (m'', runs, c) = contents_moved in
      rw (pages-range_of area parent.range, runs) (child-AreaCopied m'' c)

-- An area of the parent whose pages are mapped to its frames is copied into a child whose table has
-- no node in common with the parent's and none of the area's frames: the child gets an area with
-- the same range and permissions, each page of it mapped to a frame that was free before, with the
-- contents of the parent's frame for that page. The other pages of the child, all pages of the
-- parent, and the contents of the frames that were handed out and are no node of the child's table
-- are as before. It panics only where fewer than three frames for each page are free or the child
-- has a page of the range already.
pub copy_area-AreaCopied :
    (start : ℕ) {owner owner' : ℕ → Option Node} (user ms : MemorySet) (area : MapArea)
    (m : Machine)
    → IsMapped start owner user.page_table area m
    → IsTable start owner' ms.page_table m
    → Apart owner owner' area
    → Meets
        ((free_frames m.allocator < 3 * (area.vpn_range.r - area.vpn_range.l))
          ⊎ ((v : ℕ) × (contains v (range_of area) ≡ true)
              × (page_entry m.words ms.page_table v ≢ none)))
        (λ (ms', m'). AreaCopied start owner' user.page_table ms area m ms' m')
        (copy_area area user ms m)
copy_area-AreaCopied start user ms area m parent child apart =
    rw (copy_area-map_area area user ms m parent.range) (
      Meets->>= _ (map_area (emptied area) ms.page_table m) _
        (map_area-Filled start ms.page_table m child (emptied area) parent.range refl parent.perm)
        (λ e. e)
        (λ (area', pt', m') (free, f).
          Meets-mono _ (copy_mapped area user ms area' pt' m')
            (copy_mapped-AreaCopied start user ms area m parent apart area' pt' m' f)
            (λ e. elim e [ ]) (λ r h. h)))
