-- ===== src/Memory/MapArea/Emptied.antt =====
-- `MapArea::unmap`: what unmapping the pages of an area leaves in the table and the allocator.
use ch_os.Base.{
  ℕ, ◌+◌, ◌*◌, ◌<◌, ◌^◌, ◌≡◌, ◌≢◌, ◌⊎◌, inl, inr, refl, sym, ◌∙◌, ap, true, false, List, [], ◌∷◌,
  Option, none, some, arith, ◌==◌, if◌then◌else◌, contains, Distinct, length, All, All-contains,
}
use ch_os.Base.Outcome.{Meets, Meets-mono, Meets->>=, Meets-and}
use ch_os.Memory.Frames.Laws.{free_frames, dealloc-allocated}
use ch_os.Memory.PageTable.{Machine, PageTable, unmap_page}
use ch_os.Memory.PageTable.Tree.{Node}
use ch_os.Memory.PageTable.Grow.{IsTable}
use ch_os.Memory.PageTable.Refine.{page_entry}
use ch_os.Memory.PageTable.Map.{unmap_page-Edited, unmap_page-allocator}
use ch_os.Memory.MapArea.{
  MapArea, MapType, identical, framed, frame_at, remove_frame, drop_frame, release_frame, unmap_one,
  unmap_pages,
}
use ch_os.Memory.MapArea.Frames.{HasFrames, HasFrames-Kept}

frame_at-remove_frame :
    (fs : List (ℕ × ℕ)) (vpn v : ℕ)
    → frame_at (remove_frame fs vpn) v ≡ (if v == vpn then none else frame_at fs v)
unfolding remove_frame
frame_at-remove_frame [] vpn v = ground arith
frame_at-remove_frame ((v', f') ∷ rest) vpn v = ground (arith, frame_at-remove_frame rest vpn v)

-- How many frames a page of an area gives back.
abbrev pub frames_of : MapType → ℕ
frames_of identical = 0
frames_of framed = 1

-- What `release_frame` gives.
record Released (start : ℕ) (owner : ℕ → Option Node) (pt : PageTable) (m : Machine)
    (area : MapArea) (vpn : ℕ) (area' : MapArea) (m' : Machine) : Type 0 where
  table : IsTable start owner pt m'
  same_words : m'.words ≡ m.words
  held : HasFrames start owner m' area'.data_frames
  others : (v : ℕ) → v ≢ vpn → frame_at area'.data_frames v ≡ frame_at area.data_frames v
  same_area : area' ≡ record area { data_frames = area'.data_frames }
  count : free_frames m'.allocator ≡ free_frames m.allocator + frames_of area.map_type

module _ (start : ℕ) {owner : ℕ → Option Node} (pt : PageTable) (m : Machine)
    (t : IsTable start owner pt m) (vpn : ℕ) where
  release_frame-Released :
      (type : MapType) (area : MapArea)
      → area.map_type ≡ type
      → HasFrames start owner m area.data_frames
      → (type ≡ identical) ⊎ ((f : ℕ) × (frame_at area.data_frames vpn ≡ some f))
      → Meets ⊥
          (λ (area', m'). Released start owner pt m area vpn area' m')
          (release_frame type area vpn m)
  unfolding release_frame drop_frame
  release_frame-Released identical area e held has = record {
    table = t;
    same_words = refl;
    held = held;
    others = λ v ne. refl;
    same_area = refl;
    count = rw e (omega arith);
  }
  release_frame-Released framed area e held (inl no_type) = cc no_type
  release_frame-Released framed area e held (inr (f, has)) =
      let back = dealloc-allocated start t.frames_valid f (held.allocated vpn f has) in
      let look = frame_at-remove_frame area.data_frames vpn in
      rw (has, back.1)
        (record {
          table = record {
            tree = t.tree;
            frames_valid = back.2;
            owned = λ f' n o. ground (arith, t.owned f' n o, back.3 f', held.unowned vpn f has);
          };
          same_words = refl;
          held = record {
            allocated = λ v f' e'.
                ground (arith, look v, back.3 f', held.allocated v f', held.distinct v vpn f');
            unowned = λ v f' e'. ground (arith, look v, held.unowned v f');
            distinct = λ v v' f' e' e''. ground (arith, look v, look v', held.distinct v v' f');
          };
          others = λ v ne. ground (arith, look v);
          same_area = refl;
          count = rw e back.4;
        })

-- What unmapping the pages `vpns` of an area leaves.
pub record Emptied (start : ℕ) (pt : PageTable) (m : Machine) (vpns : List ℕ) (area area' : MapArea)
    (m' : Machine) : Type 0 where
  pub owner' : ℕ → Option Node
  pub table : IsTable start owner' pt m'
  pub pages :
      (v : ℕ)
      → v < 2 ^ 27
      → page_entry m'.words pt v ≡ (if contains v vpns then none else page_entry m.words pt v)
  pub others :
      (v : ℕ) → contains v vpns ≡ false → frame_at area'.data_frames v ≡ frame_at area.data_frames v
  pub held : HasFrames start owner' m' area'.data_frames
  pub same_area : area' ≡ record area { data_frames = area'.data_frames }
  pub count :
      free_frames m'.allocator ≡ free_frames m.allocator + frames_of area.map_type * length vpns

-- Every page of the list has a frame of the area, where the area is framed.
abbrev pub HasAll : MapArea → List ℕ → Type 0
HasAll area vpns =
    (v : ℕ)
    → contains v vpns ≡ true
    → (area.map_type ≡ identical) ⊎ ((f : ℕ) × (frame_at area.data_frames v ≡ some f))

module _ (start : ℕ) {owner : ℕ → Option Node} (pt : PageTable) (m : Machine)
    (t : IsTable start owner pt m) (area : MapArea)
    (held : HasFrames start owner m area.data_frames) where
  unmap_one-Emptied :
      (vpn : ℕ)
      → vpn < 2 ^ 27
      → (area.map_type ≡ identical) ⊎ ((f : ℕ) × (frame_at area.data_frames vpn ≡ some f))
      → Meets
          (page_entry m.words pt vpn ≡ none)
          (λ (area', m').
            (page_entry m.words pt vpn ≢ none) × Emptied start pt m (vpn ∷ []) area area' m')
          (unmap_one area pt vpn m)
  unfolding unmap_one
  unmap_one-Emptied vpn hp has =
      Meets->>= _ (release_frame area.map_type area vpn m) _
        (release_frame-Released start pt m t vpn area.map_type area refl held has) (λ e. elim e [ ])
        (λ (area', m₁) c.
          let same : (v : ℕ) → page_entry m₁.words pt v ≡ page_entry m.words pt v =
            λ v. ap (λ w. page_entry w pt v) c.same_words in
          Meets->>= _ (unmap_page vpn pt m₁) _
            (Meets-and _ _ _ _ (unmap_page vpn pt m₁) (unmap_page-Edited start pt m₁ c.table vpn hp)
              (unmap_page-allocator vpn pt m₁))
            (λ e. sym (same vpn) ∙ e)
            (λ m' ((used, r), same_allocator). (
              λ h. used (same vpn ∙ h),
              record {
                owner' = r.owner';
                table = r.table;
                pages = λ v hv. ground (arith, same v, r.pages v hv);
                others = λ v ne. ground (arith, c.others v);
                held = HasFrames-Kept start area'.data_frames c.held r.kept;
                same_area = c.same_area;
                count = ap (λ a. free_frames a) same_allocator ∙ omega (arith, c.count);
              },
            )))

HasAll-cons :
    (area area₁ : MapArea) (vpn : ℕ) (rest : List ℕ)
    → area₁ ≡ record area { data_frames = area₁.data_frames }
    → ((v : ℕ)
        → contains v (vpn ∷ []) ≡ false
        → frame_at area₁.data_frames v ≡ frame_at area.data_frames v)
    → contains vpn rest ≡ false
    → HasAll area (vpn ∷ rest)
    → HasAll area₁ rest
HasAll-cons area area₁ vpn rest same others new has v h =
    let type₁ : area₁.map_type ≡ area.map_type = ap (λ x. x.map_type) same in
    elim (has v (ground arith)) [
      | inl e ↦ inl (type₁ ∙ e)
      | inr (f, e) ↦ inr (f, others v (ground arith) ∙ e)
    ]

-- The pages one after the other.
pub unmap_pages-Emptied :
    (vpns : List ℕ) (start : ℕ) (owner : ℕ → Option Node) (pt : PageTable) (m : Machine)
    (area : MapArea)
    → IsTable start owner pt m
    → HasFrames start owner m area.data_frames
    → All (λ v. v < 2 ^ 27) vpns
    → Distinct vpns
    → HasAll area vpns
    → Meets
        ((v : ℕ) × (contains v vpns ≡ true) × (page_entry m.words pt v ≡ none))
        (λ (area', m'). Emptied start pt m vpns area area' m')
        (unmap_pages vpns area pt m)
unfolding unmap_pages
unmap_pages-Emptied [] start owner pt m area t held small distinct has = record {
  owner' = owner;
  table = t;
  pages = λ v hv. refl;
  others = λ v ne. refl;
  held = held;
  same_area = refl;
  count = omega arith;
}
unmap_pages-Emptied (vpn ∷ rest) start owner pt m area t held small distinct has =
    Meets->>= _ (unmap_one area pt vpn m) _
      (unmap_one-Emptied start pt m t area held vpn small.0 (has vpn (ground arith)))
      (λ e. (vpn, ground arith, e))
      (λ (area₁, m₁) (used, a).
        let type₁ : area₁.map_type ≡ area.map_type = ap (λ x. x.map_type) a.same_area in
        let small_rest =
          λ (v : ℕ) (h : contains v rest ≡ true). All-contains (λ v. v < 2 ^ 27) v rest small.1 h in
        Meets-mono _ (unmap_pages rest area₁ pt m₁)
          (unmap_pages-Emptied rest start a.owner' pt m₁ area₁ a.table a.held small.1 distinct.1
            (HasAll-cons area area₁ vpn rest a.same_area a.others distinct.0 has))
          (λ (v, inside, missing).
            (v, ground arith, ground (arith, a.pages v (small_rest v inside), distinct.0)))
          (λ (area₂, m₂) b. record {
            owner' = b.owner';
            table = b.table;
            pages = λ v hv. ground (arith, a.pages v hv, b.pages v hv);
            others = λ v ne. ground (arith, a.others v, b.others v);
            held = b.held;
            same_area =
                b.same_area
                ∙ ap {A = MapArea} {B = MapArea} (λ x. record x { data_frames = area₂.data_frames })
                    a.same_area;
            count = ground (arith, a.count, b.count, type₁);
          }))
