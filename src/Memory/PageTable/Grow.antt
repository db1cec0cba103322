-- ===== src/Memory/PageTable/Grow.antt =====
-- `frame_alloc` and `find_pte_create`: the table grows by fresh nodes, and no page is mapped by it.
use ch_os.Base.{
  ℕ, ◌+◌, ◌≤◌, ◌<◌, ◌^◌, ◌≡◌, refl, true, false, ◌||◌, ap, ◌∙◌, Option, none, some, arith, ◌==◌,
  update, ◌∷◌, Bool-cases, Option-cases, inl, inr,
}
use ch_os.Base.Outcome.{Meets, Meets->>=}
use ch_os.Memory.Entry
use ch_os.Memory.Entry.{flag_v, link_fields}
use ch_os.Memory.Frames
use ch_os.Memory.Frames.Laws.{IsValid, is_allocated, free_frames, alloc-some, alloc-none}
use ch_os.Memory.PageTable.{Machine, PageTable, frame_alloc, ensure, clear_frame, write_word}
use ch_os.Memory.PageTable.Tree.{Node, child, IsTree, mapped, IsTree-grown, mapped-grown}

-- A table in a machine: its frames form a tree and are handed out by the allocator.
pub record IsTable (start : ℕ) (owner : ℕ → Option Node) (pt : PageTable) (m : Machine)
    : Type 0 where
  pub tree : IsTree owner m.words pt.root_ppn
  pub frames_valid : IsValid start m.allocator
  pub owned : (f : ℕ) (n : Node) → owner f ≡ some n → is_allocated start m.allocator f ≡ true

-- What `frame_alloc` gives.
pub record Fresh (start : ℕ) (m : Machine) (g : ℕ) (m' : Machine) : Type 0 where
  pub cleared : m'.words ≡ clear_frame m.words g
  pub frames_valid : IsValid start m'.allocator
  pub unused : is_allocated start m.allocator g ≡ false
  pub taken :
      (q : ℕ) → is_allocated start m'.allocator q ≡ (g == q) || is_allocated start m.allocator q
  pub small : g < 2 ^ 44
  pub count : free_frames m.allocator ≡ free_frames m'.allocator + 1

pub frame_alloc-Fresh :
    (start : ℕ) (m : Machine)
    → IsValid start m.allocator
    → Meets (free_frames m.allocator ≡ 0) (λ (g, m'). Fresh start m g m') (frame_alloc m)
unfolding frame_alloc
frame_alloc-Fresh start m v = elim (Option-cases (Frames.alloc m.allocator).0) [
  | inl e ↦ rw (e, frame_alloc) ((alloc-none start v).0 e)
  | inr (g, e) ↦
      let pair : Frames.alloc m.allocator ≡ (some g, (Frames.alloc m.allocator).1) =
        ap (λ o. (o, (Frames.alloc m.allocator).1)) e in
      rw (e, frame_alloc)
        (record {
          cleared = refl;
          frames_valid = (alloc-some start v g g pair).0;
          unused = (alloc-some start v g g pair).3;
          taken = λ q. (alloc-some start v g q pair).4;
          small = omega (arith, (alloc-some start v g g pair).2, v.small);
          count = (alloc-some start v g g pair).5;
        })
]

-- What a call leaves of the frames that are handed out and are no node of the table: they stay so,
-- with their contents.
pub record Kept (start : ℕ) (owner : ℕ → Option Node) (m : Machine) (owner' : ℕ → Option Node)
    (m' : Machine) : Type 0 where
  pub allocated :
      (q : ℕ) → is_allocated start m.allocator q ≡ true → is_allocated start m'.allocator q ≡ true
  pub unowned : (q : ℕ) → is_allocated start m.allocator q ≡ true → owner q ≡ none → owner' q ≡ none
  pub same_data :
      (q w : ℕ)
      → is_allocated start m.allocator q ≡ true
      → owner q ≡ none
      → m'.words q w ≡ m.words q w

pub Kept-refl : (start : ℕ) (owner : ℕ → Option Node) (m : Machine) → Kept start owner m owner m
Kept-refl start owner m = record {
  allocated = λ q h. h;
  unowned = λ q h o. o;
  same_data = λ q w h o. refl;
}

pub Kept-trans :
    (start : ℕ) {owner owner₁ owner₂ : ℕ → Option Node} {m m₁ m₂ : Machine}
    → Kept start owner m owner₁ m₁
    → Kept start owner₁ m₁ owner₂ m₂
    → Kept start owner m owner₂ m₂
Kept-trans start a b = record {
  allocated = λ q h. b.allocated q (a.allocated q h);
  unowned = λ q h o. b.unowned q (a.allocated q h) (a.unowned q h o);
  same_data = λ q w h o. b.same_data q w (a.allocated q h) (a.unowned q h o) ∙ a.same_data q w h o;
}

-- What a round of the loop of `find_pte_create` gives at a node: below the entry is the child.
pub record Grown (start : ℕ) (owner : ℕ → Option Node) (pt : PageTable) (m : Machine) (f i : ℕ)
    (c : Node) (pt' : PageTable) (m' : Machine) : Type 0 where
  pub owner' : ℕ → Option Node
  pub table : IsTable start owner' pt' m'
  pub same_root : pt'.root_ppn ≡ pt.root_ppn
  pub same_pages :
      (i' j k : ℕ) → mapped m'.words pt.root_ppn i' j k ≡ mapped m.words pt.root_ppn i' j k
  pub same_links :
      (f' i' : ℕ) (n : Node)
      → owner f' ≡ some n
      → Entry.is_valid (m.words f' i') ≡ true
      → m'.words f' i' ≡ m.words f' i'
  pub same_owners : (f' : ℕ) (n : Node) → owner f' ≡ some n → owner' f' ≡ some n
  pub linked : Entry.is_valid (m'.words f i) ≡ true
  pub child_owner : owner' (Entry.ppn (m'.words f i)) ≡ some c
  pub count : free_frames m.allocator ≤ free_frames m'.allocator + 1
  pub kept : Kept start owner m owner' m'

module _ (start : ℕ) (owner : ℕ → Option Node) (pt : PageTable) (m : Machine)
    (t : IsTable start owner pt m) (f i : ℕ) (n c : Node) (owned : owner f ≡ some n)
    (placed : child n i ≡ some c) where
  Grown-old : Entry.is_valid (m.words f i) ≡ true → Grown start owner pt m f i c pt m
  Grown-old valid = record {
    owner' = owner;
    table = t;
    same_root = refl;
    same_pages = λ i' j k. refl;
    same_links = λ f' i' n' o v. refl;
    same_owners = λ f' n' o. o;
    linked = valid;
    child_owner = t.tree.linked f i n c owned placed valid;
    count = omega arith;
    kept = Kept-refl start owner m;
  }

  unowned : (g : ℕ) → is_allocated start m.allocator g ≡ false → owner g ≡ none
  unowned g free = elim (Option-cases (owner g)) [ inl e ↦ e | inr (n', e) ↦ cc (t.owned g n' e) ]

  Grown-new :
      (g : ℕ) (m' : Machine)
      → Entry.is_valid (m.words f i) ≡ false
      → Fresh start m g m'
      → Grown start owner pt m f i c
          (record pt { frames = g ∷ pt.frames })
          (record m' { words = write_word m'.words f i (Entry.entry g flag_v) })
  Grown-new g m' missing r =
      let new : owner g ≡ none = unowned g r.unused in
      rw r.cleared (record {
        owner' = update owner g (some c);
        table = record {
          tree = IsTree-grown t.tree f i g n c owned placed new missing r.small;
          frames_valid = r.frames_valid;
          owned = λ f' n' o. ground (arith, r.taken f', t.owned f' n');
        };
        same_root = refl;
        same_pages = mapped-grown t.tree f i g n c owned placed new missing r.small;
        same_links = λ f' i' n' o v. ground arith;
        same_owners = λ f' n' o. ground arith;
        linked = ground (arith, link_fields g r.small);
        child_owner = ground (arith, link_fields g r.small);
        count = omega (arith, r.count);
        kept = record {
          allocated = λ q h. ground (arith, r.taken q);
          unowned = λ q h o. ground (arith, r.unused);
          same_data = λ q w h o. ground (arith, r.unused);
        };
      })

  pub ensure-Grown :
      Meets
        (free_frames m.allocator ≡ 0)
        (λ (pt', m'). Grown start owner pt m f i c pt' m')
        (ensure f i pt m)
  unfolding ensure
  ensure-Grown = elim (Bool-cases (Entry.is_valid (m.words f i))) [
    | inl valid ↦ rw (valid, ensure) (Grown-old valid)
    | inr missing ↦
        rw (missing, ensure)
          (Meets->>= _ (frame_alloc m) _ (frame_alloc-Fresh start m t.frames_valid) (λ e. e)
            (λ (g, m') r. Grown-new g m' missing r))
  ]
