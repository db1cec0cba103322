-- ===== src/Memory/MemorySet/Fork/Area.antt =====
-- One area of an address space and its copy in another, and that copies outlive further ones.
use ch_os.Base.{
  ℕ, ◌+◌, ◌*◌, ◌-◌, ◌<◌, ◌≤◌, ◌^◌, ◌≡◌, ◌≢◌, inl, inr, sym, ap, ◌∙◌, true, false, [], ◌∷◌, ◌++◌,
  Option, none, some, arith, contains, Bool-cases,
}
use ch_os.Memory.Frames.Laws.{IsValid, is_allocated, free_frames}
use ch_os.Memory.PageTable.{Machine, PageTable}
use ch_os.Memory.PageTable.Tree.{Node}
use ch_os.Memory.PageTable.Grow.{IsTable, Kept}
use ch_os.Memory.PageTable.Refine.{page_entry}
use ch_os.Memory.PageTable.Data.{IsTree-same}
use ch_os.Memory.MapArea.{MapArea, framed, frame_at}
use ch_os.Memory.MapArea.Frames.{HasFrames, entry_of}
use ch_os.Memory.MapArea.Laws.{range_of, IsRange, contains-count_up}
use ch_os.Memory.MemorySet.{MemorySet}

-- An area whose pages are mapped to its frames.
pub record IsMapped (start : ℕ) (owner : ℕ → Option Node) (pt : PageTable) (area : MapArea)
    (m : Machine) : Type 0 where
  pub table : IsTable start owner pt m
  pub held : HasFrames start owner m area.data_frames
  pub is_framed : area.map_type ≡ framed
  pub range : IsRange area
  pub perm : area.map_perm < 2 ^ 8
  pub present : (v : ℕ) → contains v (range_of area) ≡ true → frame_at area.data_frames v ≢ none
  pub entries :
      (v : ℕ) → contains v (range_of area) ≡ true → page_entry m.words pt v ≡ entry_of area v

-- No node of the one table is a node of the other, and no frame of the area is.
pub record Apart (owner owner' : ℕ → Option Node) (area : MapArea) : Type 0 where
  pub nodes : (f : ℕ) (n : Node) → owner f ≡ some n → owner' f ≡ none
  pub data_apart : (v f : ℕ) → frame_at area.data_frames v ≡ some f → owner' f ≡ none

-- The area `area'` of the table `pt'` is a copy of `area`, on frames that were free before.
pub record CopyOf (start : ℕ) (m : Machine) (area : MapArea) (owner' : ℕ → Option Node)
    (pt' : PageTable) (area' : MapArea) (m' : Machine) : Type 0 where
  pub same_area : area' ≡ record area { data_frames = area'.data_frames }
  pub mapped : IsMapped start owner' pt' area' m'
  pub fresh :
      (v f : ℕ)
      → contains v (range_of area) ≡ true
      → frame_at area'.data_frames v ≡ some f
      → is_allocated start m.allocator f ≡ false
  pub contents :
      (v f g w : ℕ)
      → contains v (range_of area) ≡ true
      → frame_at area.data_frames v ≡ some f
      → frame_at area'.data_frames v ≡ some g
      → m'.words g w ≡ m.words f w

-- What the copy of `area` leaves in the address space `ms'`.
pub record AreaCopied (start : ℕ) (owner' : ℕ → Option Node) (user : PageTable) (ms : MemorySet)
    (area : MapArea) (m : Machine) (ms' : MemorySet) (m' : Machine) : Type 0 where
  pub area' : MapArea
  pub owner'' : ℕ → Option Node
  pub areas : ms'.areas ≡ ms.areas ++ area' ∷ []
  pub copy : CopyOf start m area owner'' ms'.page_table area' m'
  pub other_pages :
      (v : ℕ)
      → v < 2 ^ 27
      → contains v (range_of area) ≡ false
      → page_entry m'.words ms'.page_table v ≡ page_entry m.words ms.page_table v
  pub count :
      free_frames m.allocator ≤ free_frames m'.allocator + 3 * (area.vpn_range.r - area.vpn_range.l)
  pub kept : Kept start owner' m owner'' m'
  pub same_parent : (v : ℕ) → page_entry m'.words user v ≡ page_entry m.words user v

pub range-small :
    (area : MapArea) (v : ℕ) → IsRange area → contains v (range_of area) ≡ true → v < 2 ^ 27
range-small area v range h =
    ground (arith, contains-count_up (area.vpn_range.r - area.vpn_range.l) area.vpn_range.l v)

-- An area of the parent, and that the child is apart from it, after the copy of another area.
module _ (start : ℕ) {owner owner' owner'' : ℕ → Option Node} (user : PageTable) (area : MapArea)
    (m m' : Machine) (parent : IsMapped start owner user area m) (apart : Apart owner owner' area)
    (kept : Kept start owner' m owner'' m') where
  pub later-IsMapped :
      IsValid start m'.allocator
      → ((v : ℕ) → page_entry m'.words user v ≡ page_entry m.words user v)
      → IsMapped start owner user area m'
  later-IsMapped valid same = record {
    table = record {
      tree =
          IsTree-same parent.table.tree
            (λ q i n o. kept.same_data q i (parent.table.owned q n o) (apart.nodes q n o));
      frames_valid = valid;
      owned = λ q n o. kept.allocated q (parent.table.owned q n o);
    };
    held = record {
      allocated = λ v f e. kept.allocated f (parent.held.allocated v f e);
      unowned = parent.held.unowned;
      distinct = parent.held.distinct;
    };
    is_framed = parent.is_framed;
    range = parent.range;
    perm = parent.perm;
    present = parent.present;
    entries = λ v h. same v ∙ parent.entries v h;
  }

  pub later-Apart : Apart owner owner'' area
  later-Apart = record {
    nodes = λ f n o. kept.unowned f (parent.table.owned f n o) (apart.nodes f n o);
    data_apart = λ v f e. kept.unowned f (parent.held.allocated v f e) (apart.data_apart v f e);
  }

  -- A copy that was made later is a copy of what there was before.
  pub earlier-CopyOf :
      {owner₂ : ℕ → Option Node} (pt₂ : PageTable) (b : MapArea) (m₂ : Machine)
      → CopyOf start m' area owner₂ pt₂ b m₂
      → CopyOf start m area owner₂ pt₂ b m₂
  earlier-CopyOf pt₂ b m₂ c = record {
    same_area = c.same_area;
    mapped = c.mapped;
    fresh = λ v f h e. elim (Bool-cases (is_allocated start m.allocator f)) [
      | inl t ↦ cc (kept.allocated f t, c.fresh v f h e)
      | inr t ↦ t
    ];
    contents = λ v f g w h ef eg.
        c.contents v f g w h ef eg
        ∙ kept.same_data f w (parent.held.allocated v f ef) (apart.data_apart v f ef);
  }

-- A copy stays one while other areas are copied.
pub later-CopyOf :
    (start : ℕ) (m : Machine) (area : MapArea) {owner₁ owner₂ : ℕ → Option Node}
    (pt₁ pt₂ : PageTable) (b : MapArea) (m₁ m₂ : Machine)
    → CopyOf start m area owner₁ pt₁ b m₁
    → Kept start owner₁ m₁ owner₂ m₂
    → IsTable start owner₂ pt₂ m₂
    → ((v : ℕ)
        → contains v (range_of area) ≡ true
        → page_entry m₂.words pt₂ v ≡ page_entry m₁.words pt₁ v)
    → CopyOf start m area owner₂ pt₂ b m₂
later-CopyOf start m area pt₁ pt₂ b m₁ m₂ c kept table same =
    let mapped = c.mapped in
    let same_range : range_of b ≡ range_of area = ap range_of c.same_area in
    record {
      same_area = c.same_area;
      mapped = record {
        table = table;
        held = record {
          allocated = λ v f e. kept.allocated f (mapped.held.allocated v f e);
          unowned =
              λ v f e. kept.unowned f (mapped.held.allocated v f e) (mapped.held.unowned v f e);
          distinct = mapped.held.distinct;
        };
        is_framed = mapped.is_framed;
        range = mapped.range;
        perm = mapped.perm;
        present = mapped.present;
        entries = λ v h. same v (ap (contains v) (sym same_range) ∙ h) ∙ mapped.entries v h;
      };
      fresh = c.fresh;
      contents = λ v f g w h ef eg.
          kept.same_data g w (mapped.held.allocated v g eg) (mapped.held.unowned v g eg)
          ∙ c.contents v f g w h ef eg;
    }
