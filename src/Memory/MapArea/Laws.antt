-- ===== src/Memory/MapArea/Laws.antt =====
-- `MapArea::map` and `MapArea::unmap` over the range of an area.
use ch_os.Base.{
  ℕ, zero, suc, ◌+◌, ◌-◌, ◌*◌, ◌≤◌, ◌<◌, ◌^◌, ◌≡◌, ◌≢◌, ◌⊎◌, inl, inr, refl, sym, subst, ◌∙◌, ap,
  if◌then◌else◌, true, ◌&&◌, List, [], Option, none, some, arith, leb, ltb, contains, Distinct,
  length, All, Option-cases,
}
use ch_os.Base.Outcome.{Meets, Meets-done, Meets-mono, done}
use ch_os.Memory.Address.{into_iter}
use ch_os.Memory.Address.Range.{count_up, visits-count_up}
use ch_os.Memory.Frames.Laws.{free_frames}
use ch_os.Memory.PageTable.{Machine, PageTable}
use ch_os.Memory.PageTable.Tree.{Node}
use ch_os.Memory.PageTable.Grow.{IsTable}
use ch_os.Memory.PageTable.Refine.{page_entry}
use ch_os.Memory.MapArea.{
  MapArea, MapType, identical, framed, frame_at, pages, map_area, unmap_area, map_pages,
}
use ch_os.Memory.MapArea.Frames.{HasFrames, frame_of}
use ch_os.Memory.MapArea.Filled.{Filled, map_pages-Filled}
use ch_os.Memory.MapArea.Emptied.{Emptied, HasAll, unmap_pages-Emptied}

pub contains-count_up : (n a v : ℕ) → contains v (count_up a n) ≡ leb a v && ltb v (a + n)
contains-count_up zero a v = ground arith
contains-count_up (suc n) a v = ground (arith, contains-count_up n (a + 1) v)

pub length-count_up : (n a : ℕ) → length (count_up a n) ≡ n
length-count_up zero a = refl
length-count_up (suc n) a = omega (arith, length-count_up n (a + 1))

pub Distinct-count_up : (n a : ℕ) → Distinct (count_up a n)
Distinct-count_up zero a = tt
Distinct-count_up (suc n) a =
    (ground (arith, contains-count_up n (a + 1) a), Distinct-count_up n (a + 1))

All-count_up : (n a b : ℕ) → a + n ≤ b → All (λ v. v < b) (count_up a n)
All-count_up zero a b h = tt
All-count_up (suc n) a b h = (omega arith, All-count_up n (a + 1) b (omega arith))

-- The pages of an area, in order.
abbrev pub range_of : MapArea → List ℕ
range_of area = count_up area.vpn_range.l (area.vpn_range.r - area.vpn_range.l)

-- A range in the address space, which has 2^27 pages.
abbrev pub IsRange : MapArea → Type 0
IsRange area = (area.vpn_range.l ≤ area.vpn_range.r) × (area.vpn_range.r ≤ 2 ^ 27)

pub pages-range_of : (area : MapArea) → IsRange area → pages area ≡ range_of area
unfolding pages into_iter
pages-range_of area h =
    visits-count_up (area.vpn_range.r - area.vpn_range.l) area.vpn_range.l area.vpn_range.r
      (omega arith) (omega arith)

module _ (start : ℕ) {owner : ℕ → Option Node} (pt : PageTable) (m : Machine)
    (t : IsTable start owner pt m) (area : MapArea) (range : IsRange area) where
  -- On a well-formed table, for an area that has no frames yet, a range in the address space and
  -- permissions of eight bits: `map` gives every page of the range an entry with the area's
  -- permissions, marked valid, to the frame that the area now has for it (to the page's own
  -- number for an identical area), leaves every other page as it was, and leaves a well-formed
  -- table. The frames of the area are handed out, belong to one page each, and are no node of
  -- the table; frames handed out before keep their contents unless they are nodes. It panics
  -- only where a page of the range has a valid entry already or fewer than three frames per page
  -- are free.
  pub map_area-Filled :
      area.data_frames ≡ []
      → area.map_perm < 2 ^ 8
      → Meets
          ((free_frames m.allocator < 3 * (area.vpn_range.r - area.vpn_range.l))
            ⊎ ((v : ℕ) × (contains v (range_of area) ≡ true) × (page_entry m.words pt v ≢ none)))
          (λ (area', pt', m').
            ((v : ℕ) → contains v (range_of area) ≡ true → page_entry m.words pt v ≡ none)
            × Filled start owner pt m (range_of area) area area' pt' m')
          (map_area area pt m)
  unfolding map_area
  map_area-Filled fresh perm = rw (pages-range_of area range) (
      Meets-mono _ (map_pages (range_of area) area pt m)
        (map_pages-Filled (range_of area) start owner pt m area t perm
          (rw fresh (record {
            allocated = λ v f e. cc e;
            unowned = λ v f e. cc e;
            distinct = λ v v' f e e'. cc e;
          }))
          (All-count_up _ area.vpn_range.l (2 ^ 27) (omega arith)) (Distinct-count_up _ _)
          (λ v h. rw fresh refl))
        (λ e.
          subst
            (λ n.
              (free_frames m.allocator < 3 * n)
              ⊎ ((v : ℕ) × (contains v (range_of area) ≡ true) × (page_entry m.words pt v ≢ none)))
            (length-count_up (area.vpn_range.r - area.vpn_range.l) area.vpn_range.l) e)
        (λ r p. p))

  -- On a well-formed table, for an area whose frames are handed out, belong to one page each and
  -- are no node of the table, with a range in the address space and, where it is framed, a frame
  -- for every page of it: `unmap` takes the entry of every page of the range away, leaves every
  -- other page as it was, leaves a well-formed table and gives the frames of the pages back. It
  -- panics only where a page of the range has no valid entry.
  pub unmap_area-Emptied :
      HasFrames start owner m area.data_frames
      → HasAll area (range_of area)
      → Meets
          ((v : ℕ) × (contains v (range_of area) ≡ true) × (page_entry m.words pt v ≡ none))
          (λ (area', m'). Emptied start pt m (range_of area) area area' m')
          (unmap_area area pt m)
  unfolding unmap_area
  unmap_area-Emptied held has = rw (pages-range_of area range) (
      unmap_pages-Emptied (range_of area) start owner pt m area t held
        (All-count_up _ area.vpn_range.l (2 ^ 27) (omega arith)) (Distinct-count_up _ _) has)

has_frame :
    (type : MapType) (area : MapArea) (v : ℕ)
    → area.map_type ≡ type
    → frame_of type area.data_frames v ≢ none
    → (area.map_type ≡ identical) ⊎ ((f : ℕ) × (frame_at area.data_frames v ≡ some f))
has_frame identical area v e h = inl e
has_frame framed area v e h = elim (Option-cases (frame_at area.data_frames v)) [
  | inl missing ↦ absurd (h missing)
  | inr found ↦ inr found
]

HasAll-Filled :
    {start : ℕ} {owner : ℕ → Option Node} {pt pt' : PageTable} {m m' : Machine} (vpns : List ℕ)
    (area area' : MapArea)
    → Filled start owner pt m vpns area area' pt' m'
    → HasAll area' vpns
HasAll-Filled vpns area area' r v h =
    let type' : area'.map_type ≡ area.map_type = ap (λ x. x.map_type) r.same_area in
    has_frame area.map_type area' v type' (r.present v h)

-- A page that was mapped has an entry.
page_entry-Filled :
    {start : ℕ} {owner : ℕ → Option Node} {pt pt' : PageTable} {m m' : Machine}
    (area area' : MapArea)
    → IsRange area
    → Filled start owner pt m (range_of area) area area' pt' m'
    → (v : ℕ) → contains v (range_of area) ≡ true
    → page_entry m'.words pt' v ≢ none
page_entry-Filled {m = m} {m' = m'} area area' range r v h none_there =
    let type' : area'.map_type ≡ area.map_type = ap (λ x. x.map_type) r.same_area in
    let inside = contains-count_up (area.vpn_range.r - area.vpn_range.l) area.vpn_range.l v in
    ground (arith, type', r.pages v (ground (arith, inside)), r.present v h)

-- On a well-formed table, for an area that has no frames yet, a range in the address space and
-- permissions of eight bits: what `map` leaves, `unmap` takes back without a panic, and every page
-- of the address space then has the entry that it had before. `map` panics only where a page of
-- the range has a valid entry already or fewer than three frames per page are free.
pub unmap_area-map_area :
    (start : ℕ) {owner : ℕ → Option Node} (pt : PageTable) (m : Machine)
    (t : IsTable start owner pt m) (area : MapArea)
    → IsRange area
    → area.data_frames ≡ []
    → area.map_perm < 2 ^ 8
    → Meets
        ((free_frames m.allocator < 3 * (area.vpn_range.r - area.vpn_range.l))
          ⊎ ((v : ℕ) × (contains v (range_of area) ≡ true) × (page_entry m.words pt v ≢ none)))
        (λ (area', pt', m').
          (area'' : MapArea) × (m'' : Machine) × (unmap_area area' pt' m' ≡ done (area'', m''))
          × ((v : ℕ) → v < 2 ^ 27 → page_entry m''.words pt' v ≡ page_entry m.words pt v))
        (map_area area pt m)
unmap_area-map_area start {owner} pt m t area range fresh perm =
    Meets-mono _ (map_area area pt m) (map_area-Filled start pt m t area range fresh perm) (λ e. e)
      (λ (area', pt', m') (free, r).
        let same_range : range_of area' ≡ range_of area = ap (λ x. range_of x) r.same_area in
        let range' : IsRange area' = subst (λ x. IsRange x) (sym r.same_area) range in
        let (out, ended, e) =
          Meets-done (unmap_area area' pt' m')
            (unmap_area-Emptied start pt' m' r.table area' range' r.held
              (rw same_range (HasAll-Filled (range_of area) area area' r)))
            (λ (v, inside, missing).
              page_entry-Filled area area' range r v
                (subst (λ vpns. contains v vpns ≡ true) same_range inside) missing) in
        (
          out.0,
          out.1,
          ended,
          λ v hv.
              e.pages v hv
              ∙ ap {A = List ℕ}
                  (λ vpns. if contains v vpns then none else page_entry m'.words pt' v) same_range
              ∙ ground (arith, r.pages v hv, free v),
        ))
