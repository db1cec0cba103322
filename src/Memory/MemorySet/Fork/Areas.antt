-- ===== src/Memory/MemorySet/Fork/Areas.antt =====
-- All areas of an address space and their copies in another.
use ch_os.Base.{
  ℕ, ◌+◌, ◌*◌, ◌-◌, ◌≤◌, ◌<◌, ◌^◌, ◌≡◌, ◌≢◌, ◌⊎◌, inl, inr, refl, sym, ap, ◌∙◌, true, false, List,
  [], ◌∷◌, ◌++◌, Option, none, arith, contains, All, Bool, ◌||◌,
}
use ch_os.Base.Outcome.{Meets, Meets->>=, Meets-mono}
use mathlib.Core.List.{append_assoc, append-nil}
use ch_os.Memory.Frames.Laws.{IsValid, free_frames}
use ch_os.Memory.PageTable.{Machine, PageTable}
use ch_os.Memory.PageTable.Tree.{Node}
use ch_os.Memory.PageTable.Grow.{IsTable, Kept, Kept-refl, Kept-trans}
use ch_os.Memory.PageTable.Refine.{page_entry}
use ch_os.Memory.MapArea.{MapArea}
use ch_os.Memory.MapArea.Laws.{range_of}
use ch_os.Memory.MemorySet.{MemorySet}
use ch_os.Memory.MemorySet.Fork.{copy_area, copy_areas}
use ch_os.Memory.MemorySet.Fork.Area.{
  IsMapped, Apart, CopyOf, AreaCopied, range-small, later-IsMapped, later-Apart, later-CopyOf,
  earlier-CopyOf,
}
use ch_os.Memory.MemorySet.Fork.AreaCopy.{copy_area-AreaCopied}

-- How many pages the areas have together.
abbrev pub page_count : List MapArea → ℕ
page_count [] = 0
page_count (area ∷ rest) = (area.vpn_range.r - area.vpn_range.l) + page_count rest

-- Is the page in one of the areas?
abbrev pub in_areas : ℕ → List MapArea → Bool
in_areas v [] = false
in_areas v (area ∷ rest) = contains v (range_of area) || in_areas v rest

-- No two areas share a page.
abbrev pub Disjoint : List MapArea → Type 0
Disjoint [] = Unit
Disjoint (area ∷ rest) =
    ((v : ℕ) → contains v (range_of area) ≡ true → in_areas v rest ≡ false) × Disjoint rest

-- Each of the new areas is a copy of the old one in its place.
abbrev pub Copies :
    ℕ → Machine → List MapArea → (ℕ → Option Node) → PageTable → List MapArea → Machine → Type 0
Copies start m [] owner' pt' [] m' = Unit
Copies start m [] owner' pt' (b ∷ news) m' = ⊥
Copies start m (a ∷ olds) owner' pt' [] m' = ⊥
Copies start m (a ∷ olds) owner' pt' (b ∷ news) m' =
    CopyOf start m a owner' pt' b m' × Copies start m olds owner' pt' news m'

-- What the copy of the areas leaves in the address space `ms'`.
pub record AreasCopied (start : ℕ) (owner' : ℕ → Option Node) (user : PageTable) (ms : MemorySet)
    (areas : List MapArea) (m : Machine) (ms' : MemorySet) (m' : Machine) : Type 0 where
  pub new_areas : List MapArea
  pub owner'' : ℕ → Option Node
  pub table : IsTable start owner'' ms'.page_table m'
  pub added : ms'.areas ≡ ms.areas ++ new_areas
  pub copies : Copies start m areas owner'' ms'.page_table new_areas m'
  pub other_pages :
      (v : ℕ)
      → v < 2 ^ 27
      → in_areas v areas ≡ false
      → page_entry m'.words ms'.page_table v ≡ page_entry m.words ms.page_table v
  pub count : free_frames m.allocator ≤ free_frames m'.allocator + 3 * page_count areas
  pub kept : Kept start owner' m owner'' m'
  pub same_parent : (v : ℕ) → page_entry m'.words user v ≡ page_entry m.words user v

pub earlier-Copies :
    (start : ℕ) (owner owner₂ : ℕ → Option Node) {owner' owner'' : ℕ → Option Node}
    (user : PageTable) (m m' : Machine) (areas : List MapArea) (pt₂ : PageTable)
    (news : List MapArea) (m₂ : Machine)
    → Kept start owner' m owner'' m'
    → All (λ a. IsMapped start owner user a m × Apart owner owner' a) areas
    → Copies start m' areas owner₂ pt₂ news m₂
    → Copies start m areas owner₂ pt₂ news m₂
earlier-Copies start owner owner₂ user m m' [] pt₂ [] m₂ kept h c = tt
earlier-Copies start owner owner₂ user m m' [] pt₂ (b ∷ news) m₂ kept h c = c
earlier-Copies start owner owner₂ user m m' (a ∷ olds) pt₂ [] m₂ kept h c = c
earlier-Copies start owner owner₂ user m m' (a ∷ olds) pt₂ (b ∷ news) m₂ kept ((p, q), h) (c, cs) =
    (
      earlier-CopyOf start user a m m' p q kept pt₂ b m₂ c,
      earlier-Copies start owner owner₂ user m m' olds pt₂ news m₂ kept h cs,
    )

-- The parent's areas and the child as the copy of one of them leaves them.
pub later-All :
    (start : ℕ) (owner : ℕ → Option Node) {owner' owner'' : ℕ → Option Node} (user : PageTable)
    (m m' : Machine) (areas : List MapArea)
    → Kept start owner' m owner'' m'
    → IsValid start m'.allocator
    → ((v : ℕ) → page_entry m'.words user v ≡ page_entry m.words user v)
    → All (λ a. IsMapped start owner user a m × Apart owner owner' a) areas
    → All (λ a. IsMapped start owner user a m' × Apart owner owner'' a) areas
later-All start owner user m m' [] kept valid same h = tt
later-All start owner user m m' (a ∷ rest) kept valid same ((p, q), h) = (
  (later-IsMapped start user a m m' p q kept valid same, later-Apart start user a m m' p q kept),
  later-All start owner user m m' rest kept valid same h,
)

-- The first area and the rest, copied one after the other.
AreasCopied-AreaCopied :
    (start : ℕ) {owner owner' : ℕ → Option Node} (user : PageTable) (ms : MemorySet) (a : MapArea)
    (rest : List MapArea) (m : Machine) (ms₁ : MemorySet) (m₁ : Machine) (ms₂ : MemorySet)
    (m₂ : Machine)
    → Disjoint (a ∷ rest)
    → All (λ a. IsMapped start owner user a m × Apart owner owner' a) (a ∷ rest)
    → (c : AreaCopied start owner' user ms a m ms₁ m₁)
    → AreasCopied start c.owner'' user ms₁ rest m₁ ms₂ m₂
    → AreasCopied start owner' user ms (a ∷ rest) m ms₂ m₂
AreasCopied-AreaCopied start user ms a rest m ms₁ m₁ ms₂ m₂ (apart, d) ((p, q), h) c r =
    let small = range-small a in
    record {
      new_areas = c.area' ∷ r.new_areas;
      owner'' = r.owner'';
      table = r.table;
      added =
          r.added
          ∙ ap (λ l. l ++ r.new_areas) c.areas
          ∙ append_assoc ms.areas (c.area' ∷ []) r.new_areas;
      copies = (
        later-CopyOf start m a ms₁.page_table ms₂.page_table c.area' m₁ m₂ c.copy r.kept r.table
            (λ v e. r.other_pages v (small v p.range e) (apart v e)),
        earlier-Copies start _ _ user m m₁ rest ms₂.page_table r.new_areas m₂ c.kept h r.copies,
      );
      other_pages = λ v hv e.
          let no_first : contains v (range_of a) ≡ false = ground arith in
          let no_later : in_areas v rest ≡ false = ground arith in
          r.other_pages v hv no_later ∙ c.other_pages v hv no_first;
      count = omega (arith, c.count, r.count);
      kept = Kept-trans start c.kept r.kept;
      same_parent = λ v. r.same_parent v ∙ c.same_parent v;
    }

-- The areas of the parent, which share no page and whose pages are mapped to their frames, are
-- copied into a child whose table has no node in common with the parent's and none of the areas'
-- frames: the child gets one more area for each, in order, with the same range and permissions,
-- whose pages are mapped to frames that were free before and have the contents of the parent's. The
-- other pages of the child, all pages of the parent, and the contents of the frames that were
-- handed out and are no node of the child's table are as before. It panics only where fewer than
-- three frames for each page are free or the child has a page of an area already.
pub copy_areas-AreasCopied :
    (start : ℕ) (owner : ℕ → Option Node) {owner' : ℕ → Option Node} (user : MemorySet)
    (areas : List MapArea) (ms : MemorySet) (m : Machine)
    → IsTable start owner' ms.page_table m
    → Disjoint areas
    → All (λ a. IsMapped start owner user.page_table a m × Apart owner owner' a) areas
    → Meets
        ((free_frames m.allocator < 3 * page_count areas)
          ⊎ ((v : ℕ) × (v < 2 ^ 27)
              × (in_areas v areas ≡ true)
              × (page_entry m.words ms.page_table v ≢ none)))
        (λ (ms', m'). AreasCopied start owner' user.page_table ms areas m ms' m')
        (copy_areas areas user ms m)
unfolding copy_areas
copy_areas-AreasCopied start owner user [] ms m child d h = record {
  new_areas = [];
  owner'' = _;
  table = child;
  added = sym (append-nil ms.areas);
  copies = tt;
  other_pages = λ v hv e. refl;
  count = omega arith;
  kept = Kept-refl start _ m;
  same_parent = λ v. refl;
}
copy_areas-AreasCopied start owner user (a ∷ rest) ms m child (apart, d) ((p, q), h) =
    Meets->>= _ (copy_area a user ms m) _ (copy_area-AreaCopied start user ms a m p child q)
      (λ e. elim e [
        | inl few ↦ inl (omega arith)
        | inr (v, e, f) ↦ inr (v, range-small a v p.range e, rw e refl, f)
      ])
      (λ (ms₁, m₁) c.
        Meets-mono _ (copy_areas rest user ms₁ m₁)
          (copy_areas-AreasCopied start owner user rest ms₁ m₁ c.copy.mapped.table d (
            later-All start owner user.page_table m m₁ rest c.kept c.copy.mapped.table.frames_valid
              c.same_parent h))
          (λ e. elim e [
            | inl few ↦ inl (omega (arith, c.count))
            | inr (v, hv, e, f) ↦
                let no_first : contains v (range_of a) ≡ false = ground (arith, apart v) in
                inr (v, hv, ground arith, λ n. f (c.other_pages v hv no_first ∙ n))
          ])
          (λ (ms₂, m₂) r.
            AreasCopied-AreaCopied start user.page_table ms a rest m ms₁ m₁ ms₂ m₂ (apart, d)
              ((p, q), h) c r))
