-- ===== src/Memory/MemorySet/Fork/Whole.antt =====
-- `from_existed_user`: the address space that fork makes of its parent's.
use ch_os.Base.{
  ℕ, ◌+◌, ◌*◌, ◌-◌, ◌<◌, ◌≤◌, ◌^◌, ◌≡◌, ◌≢◌, inl, inr, refl, sym, ap, ◌∙◌, subst, false, List, [],
  ◌∷◌, ◌++◌, Option, none, some, arith, ◌==◌, if◌then◌else◌, All, bit_or,
}
use ch_os.Base.Outcome.{done, Meets, Meets->>=, Meets-mono}
use ch_os.Memory.Address
use ch_os.Memory.Address.{virt_to_page, virt_addr, phys_to_page, phys_addr}
use ch_os.Memory.Entry
use ch_os.Memory.Entry.{is_valid-zero, flag_r, flag_x, flag_v}
use ch_os.Memory.Frames.Laws.{IsValid, free_frames}
use ch_os.Memory.PageTable.{Machine, PageTable, frame_alloc, map_page}
use ch_os.Memory.PageTable
use ch_os.Memory.PageTable.Tree.{Node}
use ch_os.Memory.PageTable.Grow.{IsTable, Kept, Kept-trans}
use ch_os.Memory.PageTable.Refine.{page_entry}
use ch_os.Memory.PageTable.Map.{new-Created, map_page-Edited}
use ch_os.Memory.PageTable.Data.{page_entry-same}
use ch_os.Memory.MapArea.{MapArea}
use ch_os.Memory.MemorySet.{MemorySet, new_bare, map_trampoline, trampoline}
use ch_os.Memory.MemorySet.Fork.{copy_areas, from_existed_user}
use ch_os.Memory.MemorySet.Fork.Area.{IsMapped, Apart}
use ch_os.Memory.MemorySet.Fork.Areas.{
  Copies, Disjoint, in_areas, page_count, later-All, earlier-Copies, copy_areas-AreasCopied,
}

-- The page of the trampoline, the last one.
abbrev pub trampoline_page : ℕ
trampoline_page = 2 ^ 27 - 1

-- A new address space, of which no page is mapped but those that `value` tells of.
record Bare (start : ℕ) (m : Machine) (free : ℕ) (value : ℕ → Option ℕ) (ms : MemorySet)
    (m' : Machine) : Type 0 where
  pub owner' : ℕ → Option Node
  pub table : IsTable start owner' ms.page_table m'
  pub kept : Kept start (λ q. none) m owner' m'
  pub entries : (v : ℕ) → v < 2 ^ 27 → page_entry m'.words ms.page_table v ≡ value v
  pub count : free_frames m.allocator ≤ free_frames m'.allocator + free
  pub no_areas : ms.areas ≡ []

new_bare-Bare :
    (start : ℕ) (m : Machine)
    → IsValid start m.allocator
    → Meets
        (free_frames m.allocator < 1)
        (λ (ms, m'). Bare start m 1 (λ v. none) ms m')
        (new_bare m)
unfolding new_bare
new_bare-Bare start m valid =
    Meets->>= _ (PageTable.new m) _ (new-Created start m valid) (λ e. omega arith)
      (λ (pt, m') r. record {
        owner' = r.owner';
        table = r.table;
        kept = r.kept;
        entries = λ v hv. r.empty v;
        count = omega (arith, r.count);
        no_areas = refl;
      })

trampoline-page : virt_to_page (virt_addr trampoline) ≡ done trampoline_page
unfolding virt_to_page virt_addr Address.virt_offset Address.virt_floor
trampoline-page = refl

-- The entry of the page of the trampoline, whose code stands in the frame `ppn`.
abbrev pub trampoline_entry : ℕ → ℕ
trampoline_entry ppn = Entry.entry ppn (bit_or (bit_or flag_r flag_x) flag_v)

abbrev with_trampoline : ℕ → ℕ → Option ℕ
with_trampoline ppn v = if v == trampoline_page then some (trampoline_entry ppn) else none

map_trampoline-Bare :
    (start : ℕ) (m : Machine) (strampoline ppn : ℕ) (ms : MemorySet) (m₁ : Machine)
    → phys_to_page (phys_addr strampoline) ≡ done ppn
    → ppn < 2 ^ 44
    → Bare start m 1 (λ v. none) ms m₁
    → Meets
        (free_frames m.allocator < 3)
        (λ (ms', m'). Bare start m 3 (with_trampoline ppn) ms' m')
        (map_trampoline strampoline ms m₁)
unfolding map_trampoline
map_trampoline-Bare start m strampoline ppn ms m₁ code small b =
    rw (trampoline-page, code)
      (Meets->>= _ (map_page trampoline_page ppn (bit_or flag_r flag_x) ms.page_table m₁) _
        (map_page-Edited start ms.page_table m₁ b.table trampoline_page (omega arith) ppn
          (bit_or flag_r flag_x) small (omega arith))
        (λ e. elim e [
          | inl few ↦ omega (arith, b.count)
          | inr mapped ↦ absurd (mapped (b.entries trampoline_page (omega arith)))
        ])
        (λ (pt', m') (free, r). record {
          owner' = r.owner';
          table = r.table;
          kept = Kept-trans start b.kept r.kept;
          entries = λ v hv.
              r.pages v hv
              ∙ ap (λ o. if v == trampoline_page then some (trampoline_entry ppn) else o)
                  (b.entries v hv);
          count = omega (arith, b.count, r.count);
          no_areas = b.no_areas;
        }))

-- The parent's areas, seen from a child that has no table yet.
All-Apart :
    (start : ℕ) (owner : ℕ → Option Node) (user : PageTable) (m : Machine) (areas : List MapArea)
    → All (λ a. IsMapped start owner user a m) areas
    → All (λ a. IsMapped start owner user a m × Apart owner (λ q. none) a) areas
All-Apart start owner user m [] h = tt
All-Apart start owner user m (a ∷ rest) (p, h) = (
  (p, record { nodes = λ f n o. refl; data_apart = λ v f e. refl }),
  All-Apart start owner user m rest h,
)

-- The address space `ms'` that is made of `user`.
pub record SpaceCopied (start ppn : ℕ) (user : MemorySet) (m : Machine) (ms' : MemorySet)
    (m' : Machine) : Type 0 where
  pub owner' : ℕ → Option Node
  pub table : IsTable start owner' ms'.page_table m'
  pub copies : Copies start m user.areas owner' ms'.page_table ms'.areas m'
  pub code : page_entry m'.words ms'.page_table trampoline_page ≡ some (trampoline_entry ppn)
  pub unmapped :
      (v : ℕ)
      → v < 2 ^ 27
      → v ≢ trampoline_page
      → in_areas v user.areas ≡ false
      → page_entry m'.words ms'.page_table v ≡ none
  pub count : free_frames m.allocator ≤ free_frames m'.allocator + 3 * page_count user.areas + 3
  pub kept : Kept start (λ q. none) m owner' m'
  pub same_parent :
      (v : ℕ) → page_entry m'.words user.page_table v ≡ page_entry m.words user.page_table v

-- The address space with only the page of the trampoline, and then the areas.
module _ (start : ℕ) (owner : ℕ → Option Node) (user : MemorySet) (m : Machine) (ppn : ℕ)
    (parent : IsTable start owner user.page_table m) (disjoint : Disjoint user.areas)
    (mapped : All (λ a. IsMapped start owner user.page_table a m) user.areas)
    (below : in_areas trampoline_page user.areas ≡ false) where
  copy_areas-Bare :
      (ms₁ : MemorySet) (m₁ : Machine)
      → Bare start m 3 (with_trampoline ppn) ms₁ m₁
      → Meets
          (free_frames m.allocator < 3 * page_count user.areas + 3)
          (λ (ms', m'). SpaceCopied start ppn user m ms' m')
          (copy_areas user.areas user ms₁ m₁)
  copy_areas-Bare ms₁ m₁ b =
      let same : (v : ℕ)
          → page_entry m₁.words user.page_table v ≡ page_entry m.words user.page_table v =
        λ v.
          page_entry-same user.page_table v parent.tree
            (λ q i n o. b.kept.same_data q i (parent.owned q n o) refl) in
      let apart = All-Apart start owner user.page_table m user.areas mapped in
      Meets-mono _ (copy_areas user.areas user ms₁ m₁)
        (copy_areas-AreasCopied start owner user user.areas ms₁ m₁ b.table disjoint (
          later-All start owner user.page_table m m₁ user.areas b.kept b.table.frames_valid same
            apart))
        (λ e. elim e [
          | inl few ↦ omega (arith, b.count)
          | inr (v, hv, e, f) ↦ ground (arith, b.entries v hv, below)
        ])
        (λ (ms', m') r. record {
          owner' = r.owner'';
          table = r.table;
          copies =
              subst (λ l. Copies start m user.areas r.owner'' ms'.page_table l m')
                (sym (r.added ∙ ap (λ l. l ++ r.new_areas) b.no_areas))
                (earlier-Copies start owner r.owner'' user.page_table m m₁ user.areas ms'.page_table
                  r.new_areas m' b.kept apart r.copies);
          code =
              r.other_pages trampoline_page (omega arith) below
              ∙ b.entries trampoline_page (omega arith);
          unmapped = λ v hv other e. r.other_pages v hv e ∙ b.entries v hv ∙ ground arith;
          count = omega (arith, b.count, r.count);
          kept = Kept-trans start b.kept r.kept;
          same_parent = λ v. r.same_parent v ∙ same v;
        })

  -- Fork's copy of an address space whose table is well formed, whose areas share no page, with each
  -- other or with the trampoline, and have their pages mapped to their frames: the new address space
  -- has a copy of each area, in order, with the same range and permissions, on frames that were
  -- free before and with the same contents; its last page is the trampoline's code, readable and
  -- executable, and no other page is mapped. The mapping of the parent and the contents of every
  -- frame that was handed out before are as they were. It panics only where fewer than three frames
  -- for each page, and three more, are free.
  pub from_existed_user-SpaceCopied :
      (strampoline : ℕ)
      → phys_to_page (phys_addr strampoline) ≡ done ppn
      → ppn < 2 ^ 44
      → Meets
          (free_frames m.allocator < 3 * page_count user.areas + 3)
          (λ (ms', m'). SpaceCopied start ppn user m ms' m')
          (from_existed_user strampoline user m)
  unfolding from_existed_user
  from_existed_user-SpaceCopied strampoline code small =
      Meets->>= _ (new_bare m) _ (new_bare-Bare start m parent.frames_valid) (λ e. omega arith)
        (λ (ms₀, m₀) b.
          Meets->>= _ (map_trampoline strampoline ms₀ m₀) _
            (map_trampoline-Bare start m strampoline ppn ms₀ m₀ code small b) (λ e. omega arith)
            (λ (ms₁, m₁) b'. copy_areas-Bare ms₁ m₁ b'))
