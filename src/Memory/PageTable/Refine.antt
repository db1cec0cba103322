-- ===== src/Memory/PageTable/Refine.antt =====
-- `map` and `unmap` on the table in memory are insertion and removal in a map from pages to entries.
use ch_os.Base.{
  ℕ, ◌+◌, ◌≤◌, ◌<◌, ◌/◌, ◌%◌, ◌^◌, ◌≡◌, ◌≢◌, refl, ap, sym, subst, ◌∙◌, ◌⊎◌, inl, inr, true, ◌&&◌,
  Option, none, some, arith, ◌==◌, if◌then◌else◌, [], ◌∷◌, bit_or, Bool-cases, Option-cases,
}
use ch_os.Base.Outcome.{Meets, Meets->>=}
use ch_os.Memory.Address.{indexes}
use ch_os.Memory.Address.Pages.{indexes-digits}
use ch_os.Memory.Entry
use ch_os.Memory.Entry.{flag_v, is_valid-entry, is_valid-empty}
use ch_os.Memory.Frames.Laws.{free_frames}
use ch_os.Memory.PageTable.{
  Machine, PageTable, ensure, create_from, find_pte_create, map_page, unmap_page, find_from,
  find_pte, translate, write_word,
}
use ch_os.Memory.PageTable.Tree.{
  Node, top, mid, leaf, mapped, leaf_frame, mapped-write, IsTree-write_leaf, leaf_frame-owner,
}
use ch_os.Memory.PageTable.Grow.{IsTable, Grown, ensure-Grown, Kept, Kept-trans}

-- What `find_pte_create` gives for the page with the indexes `i`, `j` and any third one.
pub record Created (start : ℕ) (owner : ℕ → Option Node) (pt : PageTable) (m : Machine) (i j f : ℕ)
    (pt' : PageTable) (m' : Machine) : Type 0 where
  pub owner' : ℕ → Option Node
  pub table : IsTable start owner' pt' m'
  pub same_root : pt'.root_ppn ≡ pt.root_ppn
  pub same_pages :
      (i' j' k : ℕ) → mapped m'.words pt.root_ppn i' j' k ≡ mapped m.words pt.root_ppn i' j' k
  pub found : leaf_frame m'.words pt.root_ppn i j ≡ some f
  pub count : free_frames m.allocator ≤ free_frames m'.allocator + 2
  pub kept : Kept start owner m owner' m'

module _ (start : ℕ) {owner : ℕ → Option Node} (pt : PageTable) (m : Machine)
    (t : IsTable start owner pt m) (i j k : ℕ) where
  second :
      (pt₁ : PageTable) (m₁ : Machine)
      → Grown start owner pt m pt.root_ppn i (mid i) pt₁ m₁
      → Meets
          (free_frames m.allocator < 2)
          (λ (o, pt', m'). (f : ℕ) × (o ≡ some (f, k)) × Created start owner pt m i j f pt' m')
          (create_from (j ∷ k ∷ []) 1 (Entry.ppn (m₁.words pt.root_ppn i)) pt₁ m₁)
  unfolding create_from
  second pt₁ m₁ a =
      Meets->>= _ (ensure (Entry.ppn (m₁.words pt.root_ppn i)) j pt₁ m₁) _
        (ensure-Grown start a.owner' pt₁ m₁ a.table _ j (mid i) (leaf i j) a.child_owner refl)
        (λ e. omega (arith, a.count))
        (λ (pt₂, m₂) b. (
          Entry.ppn (m₂.words (Entry.ppn (m₁.words pt.root_ppn i)) j),
          refl,
          record {
            owner' = b.owner';
            table = b.table;
            same_root = b.same_root ∙ a.same_root;
            same_pages = λ i' j' k'.
                subst (λ r. mapped m₂.words r i' j' k' ≡ mapped m₁.words r i' j' k') a.same_root
                  (b.same_pages i' j' k')
                ∙ a.same_pages i' j' k';
            found = ground (
              arith,
              a.linked,
              b.linked,
              b.same_links pt.root_ppn i top (a.same_owners pt.root_ppn top t.tree.rooted) a.linked,
            );
            count = omega (arith, a.count, b.count);
            kept = Kept-trans start a.kept b.kept;
          },
        ))

  pub create_from-Created :
      Meets
        (free_frames m.allocator < 2)
        (λ (o, pt', m'). (f : ℕ) × (o ≡ some (f, k)) × Created start owner pt m i j f pt' m')
        (create_from (i ∷ j ∷ k ∷ []) 0 pt.root_ppn pt m)
  unfolding create_from
  create_from-Created =
      Meets->>= _ (ensure pt.root_ppn i pt m) _
        (ensure-Grown start owner pt m t pt.root_ppn i top (mid i) t.tree.rooted refl)
        (λ e. omega arith) (λ (pt₁, m₁) a. second pt₁ m₁ a)

find_from-leaf :
    (words : ℕ → ℕ → ℕ) (root i j k : ℕ)
    → find_from words (i ∷ j ∷ k ∷ []) 0 root
      ≡ elim (leaf_frame words root i j) [ none ↦ none | some f ↦ some (f, k) ]
unfolding find_from
find_from-leaf words root i j k = ground arith

-- What a call leaves that gives the page `i`, `j`, `k` the entry `value`, or none.
pub record Remapped (start : ℕ) (owner : ℕ → Option Node) (pt : PageTable) (m : Machine) (i j k : ℕ)
    (value : Option ℕ) (pt' : PageTable) (m' : Machine) : Type 0 where
  pub owner' : ℕ → Option Node
  pub table : IsTable start owner' pt' m'
  pub same_root : pt'.root_ppn ≡ pt.root_ppn
  pub pages :
      (i' j' k' : ℕ)
      → mapped m'.words pt.root_ppn i' j' k' ≡ (
          if (i' == i) && (j' == j) && (k' == k)
          then value
          else mapped m.words pt.root_ppn i' j' k')
  pub count : free_frames m.allocator ≤ free_frames m'.allocator + 2
  pub kept : Kept start owner m owner' m'

-- The entry of a page is written.
Remapped-write :
    (start : ℕ) {owner : ℕ → Option Node} (pt : PageTable) (m : Machine) (i j k f bits : ℕ)
    → IsTable start owner pt m
    → leaf_frame m.words pt.root_ppn i j ≡ some f
    → Remapped start owner pt m i j k
        (if Entry.is_valid bits then some bits else none)
        pt
        (record m { words = write_word m.words f k bits })
Remapped-write start {owner} pt m i j k f bits t e = record {
  owner' = owner;
  table = record {
    tree = IsTree-write_leaf t.tree i j f k bits (leaf_frame-owner t.tree i j e);
    frames_valid = t.frames_valid;
    owned = t.owned;
  };
  same_root = refl;
  pages = λ i' j' k'. mapped-write t.tree i j k i' j' k' bits e;
  count = omega arith;
  kept = record {
    allocated = λ q h. h;
    unowned = λ q h o. o;
    same_data = λ q w h o. ground (arith, leaf_frame-owner t.tree i j e);
  };
}

-- The same after `find_pte_create`.
Remapped-Created :
    (start : ℕ) (owner : ℕ → Option Node) (pt : PageTable) (m : Machine) (i j k f bits : ℕ)
    (pt' : PageTable) (m' : Machine)
    → Created start owner pt m i j f pt' m'
    → Entry.is_valid bits ≡ true
    → Remapped start owner pt m i j k
        (some bits)
        pt'
        (record m' { words = write_word m'.words f k bits })
Remapped-Created start owner pt m i j k f bits pt' m' c valid =
    let w =
      Remapped-write start pt' m' i j k f bits c.table
        (subst (λ r. leaf_frame m'.words r i j ≡ some f) (sym c.same_root) c.found) in
    record {
      owner' = w.owner';
      table = w.table;
      same_root = c.same_root;
      pages = λ i' j' k'.
          subst
            (λ r. mapped (write_word m'.words f k bits) r i' j' k' ≡ (
              if (i' == i) && (j' == j) && (k' == k)
              then (if Entry.is_valid bits then some bits else none)
              else mapped m'.words r i' j' k'))
            c.same_root (w.pages i' j' k')
          ∙ rw (valid, c.same_pages i' j' k') refl;
      count = omega (arith, c.count);
      kept = Kept-trans start c.kept w.kept;
    }

module _ (start : ℕ) {owner : ℕ → Option Node} (pt : PageTable) (m : Machine)
    (t : IsTable start owner pt m) (vpn i j k : ℕ) (digits : indexes vpn ≡ i ∷ j ∷ k ∷ []) where
  -- `map` writes the entry of a page that is not mapped and changes no other page. It panics only
  -- where the page is mapped already or fewer than two frames are free.
  pub map_page-Remapped :
      (ppn flags : ℕ)
      → ppn < 2 ^ 44
      → flags < 2 ^ 8
      → Meets
          ((free_frames m.allocator < 2) ⊎ (mapped m.words pt.root_ppn i j k ≢ none))
          (λ (pt', m').
            (mapped m.words pt.root_ppn i j k ≡ none)
            × Remapped start owner pt m i j k (some (Entry.entry ppn (bit_or flags flag_v))) pt' m')
          (map_page vpn ppn flags pt m)
  unfolding map_page find_pte_create
  map_page-Remapped ppn flags hp hf = rw digits (
      Meets->>= _ (create_from (i ∷ j ∷ k ∷ []) 0 pt.root_ppn pt m) _
        (create_from-Created start pt m t i j k) inl
        (λ (o, pt', m') (f, e, c). rw e (elim (Bool-cases (Entry.is_valid (m'.words f k))) [
          | inl valid ↦ rw valid (inr (λ h. ground (arith, c.same_pages i j k, c.found)))
          | inr free ↦ rw free (
            ground (arith, c.same_pages i j k, c.found),
            Remapped-Created start owner pt m i j k f _ pt' m' c (is_valid-entry ppn flags hp hf),
          )
        ])))

  -- `unmap` removes the entry of a page that is mapped and changes no other page. It panics only
  -- where the page is not mapped.
  pub unmap_page-Remapped :
      Meets
        (mapped m.words pt.root_ppn i j k ≡ none)
        (λ m'.
          (mapped m.words pt.root_ppn i j k ≢ none) × Remapped start owner pt m i j k none pt m')
        (unmap_page vpn pt m)
  unfolding unmap_page find_pte find_from
  unmap_page-Remapped = rw digits (elim (Option-cases (leaf_frame m.words pt.root_ppn i j)) [
    | inl e ↦ rw (find_from-leaf m.words pt.root_ppn i j k, e) (ground (arith, e))
    | inr (f, e) ↦
        rw (find_from-leaf m.words pt.root_ppn i j k, e)
          (elim (Bool-cases (Entry.is_valid (m.words f k))) [
            | inl valid ↦
                rw (valid, mapped)
                  (
                    (λ h. cc h),
                    subst
                        (λ value.
                          Remapped start owner pt m i j k value pt
                            (record m { words = write_word m.words f k Entry.empty }))
                        (rw is_valid-empty refl)
                        (Remapped-write start pt m i j k f Entry.empty t e),
                  )
            | inr free ↦ rw free (ground (arith, e, free))
          ])
  ])

-- The valid entry of a page, as `translate` finds it.
abbrev pub page_entry : (ℕ → ℕ → ℕ) → PageTable → ℕ → Option ℕ
page_entry words pt vpn = elim (translate words pt vpn) [
  | none ↦ none
  | some bits ↦ if Entry.is_valid bits then some bits else none
]

find_pte-leaf :
    (words : ℕ → ℕ → ℕ) (pt : PageTable) (vpn : ℕ)
    → find_pte words pt vpn
      ≡ elim (leaf_frame words pt.root_ppn (vpn / 2 ^ 18 % 512) (vpn / 2 ^ 9 % 512)) [
        | none ↦ none
        | some f ↦ some (f, vpn % 512)
      ]
unfolding find_pte
find_pte-leaf words pt vpn =
    ap (λ idx. find_from words idx 0 pt.root_ppn) (indexes-digits vpn)
    ∙ find_from-leaf words pt.root_ppn (vpn / 2 ^ 18 % 512) (vpn / 2 ^ 9 % 512) (vpn % 512)

pub page_entry-mapped :
    (words : ℕ → ℕ → ℕ) (pt : PageTable) (vpn : ℕ)
    → page_entry words pt vpn
      ≡ mapped words pt.root_ppn (vpn / 2 ^ 18 % 512) (vpn / 2 ^ 9 % 512) (vpn % 512)
unfolding translate
page_entry-mapped words pt vpn = ground (arith, find_pte-leaf words pt vpn)
