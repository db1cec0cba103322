-- ===== src/Memory/MapArea/Filled.antt =====
-- `MapArea::map`: what mapping the pages of an area leaves in the table, and whose the frames are.
use ch_os.Base.{
  ℕ, ◌+◌, ◌*◌, ◌≤◌, ◌<◌, ◌^◌, ◌≡◌, ◌≢◌, ◌⊎◌, inl, inr, refl, sym, ◌∙◌, ap, Bool-cases, true, false,
  List, [], ◌∷◌, Option, none, some, arith, if◌then◌else◌, contains, Distinct, length,
}
use ch_os.Base.Outcome.{Meets, Meets-mono, Meets->>=}
use ch_os.Memory.Frames.Laws.{is_allocated, free_frames}
use ch_os.Memory.PageTable.{Machine, PageTable, map_page}
use ch_os.Memory.PageTable.Tree.{Node}
use ch_os.Memory.PageTable.Grow.{IsTable, Kept, Kept-refl, Kept-trans}
use ch_os.Memory.PageTable.Refine.{page_entry}
use ch_os.Memory.PageTable.Map.{map_page-Edited}
use ch_os.Memory.MapArea.{MapArea, frame_at, choose_frame, map_one, map_pages}
use ch_os.Memory.MapArea.Frames.{
  HasFrames, HasFrames-Kept, frame_of, entry_of, frame_of-others, entry_of-others,
  choose_frame-Chosen,
}
use ch_os.Base.{All, All-contains}

-- What mapping the pages `vpns` of an area leaves.
pub record Filled (start : ℕ) (owner : ℕ → Option Node) (pt : PageTable) (m : Machine)
    (vpns : List ℕ) (area area' : MapArea) (pt' : PageTable) (m' : Machine) : Type 0 where
  pub owner' : ℕ → Option Node
  pub table : IsTable start owner' pt' m'
  pub pages :
      (v : ℕ)
      → v < 2 ^ 27
      → page_entry m'.words pt' v
        ≡ (if contains v vpns then entry_of area' v else page_entry m.words pt v)
  pub present : (v : ℕ) → contains v vpns ≡ true → frame_of area.map_type area'.data_frames v ≢ none
  pub others :
      (v : ℕ) → contains v vpns ≡ false → frame_at area'.data_frames v ≡ frame_at area.data_frames v
  pub held : HasFrames start owner' m' area'.data_frames
  pub same_area : area' ≡ record area { data_frames = area'.data_frames }
  pub count : free_frames m.allocator ≤ free_frames m'.allocator + 3 * length vpns
  pub kept : Kept start owner m owner' m'
  pub fresh :
      (v f : ℕ)
      → contains v vpns ≡ true
      → frame_at area'.data_frames v ≡ some f
      → is_allocated start m.allocator f ≡ false

module _ (start : ℕ) {owner : ℕ → Option Node} (pt : PageTable) (m : Machine)
    (t : IsTable start owner pt m) (area : MapArea) (perm : area.map_perm < 2 ^ 8)
    (held : HasFrames start owner m area.data_frames) where
  pub map_one-Filled :
      (vpn : ℕ)
      → vpn < 2 ^ 27
      → frame_at area.data_frames vpn ≡ none
      → Meets
          ((free_frames m.allocator < 3) ⊎ (page_entry m.words pt vpn ≢ none))
          (λ (area', pt', m').
            (page_entry m.words pt vpn ≡ none)
            × Filled start owner pt m (vpn ∷ []) area area' pt' m')
          (map_one area pt vpn m)
  unfolding map_one
  map_one-Filled vpn hp missing =
      Meets->>= _ (choose_frame area.map_type area vpn m) _
        (choose_frame-Chosen start pt m t vpn hp area.map_type area refl held missing)
        (λ e. inl (omega arith))
        (λ (ppn, area', m₁) c.
          Meets->>= _ (map_page vpn ppn area.map_perm pt m₁) _
            (map_page-Edited start pt m₁ c.table vpn hp ppn area.map_perm c.small perm)
            (λ e. ground (arith, c.count, c.same_pages vpn))
            (λ (pt', m') (free, r). (
              ground (arith, c.same_pages vpn),
              record {
                owner' = r.owner';
                table = r.table;
                pages = λ v hv. ground (
                  arith,
                  r.pages v hv,
                  c.same_pages v,
                  c.frame,
                  ap (λ a. entry_of a vpn) c.same_area,
                );
                present = λ v h. ground (arith, c.frame);
                others = λ v ne. ground (arith, c.others v);
                held = HasFrames-Kept start area'.data_frames c.held r.kept;
                same_area = c.same_area;
                count = omega (arith, c.count, r.count);
                kept = Kept-trans start c.kept r.kept;
                fresh = λ v f h at. c.fresh f (ground arith);
              },
            )))

  -- The pages `rest` after the page `vpn`.
  Filled-cons :
      (vpn : ℕ) (rest : List ℕ) (area₁ : MapArea) (pt₁ : PageTable) (m₁ : Machine) (area₂ : MapArea)
      (pt₂ : PageTable) (m₂ : Machine)
      → vpn < 2 ^ 27
      → contains vpn rest ≡ false
      → (a : Filled start owner pt m (vpn ∷ []) area area₁ pt₁ m₁)
      → Filled start a.owner' pt₁ m₁ rest area₁ area₂ pt₂ m₂
      → Filled start owner pt m (vpn ∷ rest) area area₂ pt₂ m₂
  Filled-cons vpn rest area₁ pt₁ m₁ area₂ pt₂ m₂ hp new a b =
      let same₂ : area₂ ≡ record area { data_frames = area₂.data_frames } =
        b.same_area
        ∙ ap {A = MapArea} {B = MapArea} (λ x. record x { data_frames = area₂.data_frames })
            a.same_area in
      let type₁ : area₁.map_type ≡ area.map_type = ap (λ x. x.map_type) a.same_area in
      record {
        owner' = b.owner';
        table = b.table;
        pages = λ v hv. ground (
          arith,
          a.pages v hv,
          b.pages v hv,
          entry_of-others area₁ area₂ b.same_area v,
          b.others v,
        );
        present = λ v h. ground (
          arith,
          type₁,
          a.present v,
          b.present v,
          frame_of-others area.map_type area₁.data_frames area₂.data_frames v,
          b.others v,
        );
        others = λ v ne. ground (arith, a.others v, b.others v);
        held = b.held;
        same_area = same₂;
        count = omega (arith, a.count, b.count);
        kept = Kept-trans start a.kept b.kept;
        fresh = λ v f h at. elim (Bool-cases (contains v rest)) [
          | inl later ↦ ground (arith, b.fresh v f later at, a.kept.allocated f)
          | inr first ↦ a.fresh v f (ground arith) (sym (b.others v first) ∙ at)
        ];
      }

-- Another page of the list has in the table after the first what it had before.
rest-page :
    (start : ℕ) {owner : ℕ → Option Node} {pt pt₁ : PageTable} {m m₁ : Machine}
    {area area₁ : MapArea} (vpn : ℕ) (rest : List ℕ)
    → All (λ v. v < 2 ^ 27) rest
    → contains vpn rest ≡ false
    → Filled start owner pt m (vpn ∷ []) area area₁ pt₁ m₁
    → (v : ℕ) → contains v rest ≡ true
    → page_entry m₁.words pt₁ v ≡ page_entry m.words pt v
rest-page start vpn rest small new a v h =
    ground (arith, a.pages v (All-contains (λ v. v < 2 ^ 27) v rest small h))

-- The pages one after the other.
pub map_pages-Filled :
    (vpns : List ℕ) (start : ℕ) (owner : ℕ → Option Node) (pt : PageTable) (m : Machine)
    (area : MapArea)
    → IsTable start owner pt m
    → area.map_perm < 2 ^ 8
    → HasFrames start owner m area.data_frames
    → All (λ v. v < 2 ^ 27) vpns
    → Distinct vpns
    → ((v : ℕ) → contains v vpns ≡ true → frame_at area.data_frames v ≡ none)
    → Meets
        ((free_frames m.allocator < 3 * length vpns)
          ⊎ ((v : ℕ) × (contains v vpns ≡ true) × (page_entry m.words pt v ≢ none)))
        (λ (area', pt', m').
          ((v : ℕ) → contains v vpns ≡ true → page_entry m.words pt v ≡ none)
          × Filled start owner pt m vpns area area' pt' m')
        (map_pages vpns area pt m)
unfolding map_pages
map_pages-Filled [] start owner pt m area t perm held small distinct missing = (
  λ v h. cc h,
  record {
    owner' = owner;
    table = t;
    pages = λ v hv. refl;
    present = λ v h. cc h;
    others = λ v ne. refl;
    held = held;
    same_area = refl;
    count = omega arith;
    kept = Kept-refl start owner m;
    fresh = λ v f h at. cc h;
  },
)
map_pages-Filled (vpn ∷ rest) start owner pt m area t perm held small distinct missing =
    Meets->>= _ (map_one area pt vpn m) _
      (map_one-Filled start pt m t area perm held vpn small.0 (missing vpn (ground arith)))
      (λ e. elim e [ inl few ↦ inl (omega arith) | inr used ↦ inr (vpn, ground arith, used) ])
      (λ (area₁, pt₁, m₁) (free, a).
        let same = rest-page start vpn rest small.1 distinct.0 a in
        Meets-mono _ (map_pages rest area₁ pt₁ m₁)
          (map_pages-Filled rest start a.owner' pt₁ m₁ area₁ a.table
            (ground (arith, ap (λ x. x.map_perm) a.same_area)) a.held small.1 distinct.1
            (λ v h. ground (arith, a.others v, missing v)))
          (λ e. elim e [
            | inl few ↦ inl (omega (arith, a.count))
            | inr (v, inside, used) ↦ inr (v, ground arith, λ h. used (same v inside ∙ h))
          ])
          (λ (area₂, pt₂, m₂) (later, b). (
            λ v h. ground (arith, later v, same v),
            Filled-cons start pt m t area perm held vpn rest area₁ pt₁ m₁ area₂ pt₂ m₂ small.0
                distinct.0 a b,
          )))
