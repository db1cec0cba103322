-- ===== src/Memory/PageTable/Data.antt =====
-- The frames that are no node of a page table: a write to one changes no page's entry.
use ch_os.Base.{
  ℕ, ◌+◌, ◌<◌, ◌^◌, ◌≡◌, refl, ◌∙◌, ap, sym, true, false, Option, none, some, arith, Option-cases,
  inl, inr,
}
use ch_os.Base.Outcome.{Meets, Meets-mono}
use ch_os.Memory.Entry
use ch_os.Memory.Frames.Laws.{is_allocated, free_frames}
use ch_os.Memory.PageTable.{Machine, PageTable, frame_alloc}
use ch_os.Memory.PageTable.Tree.{Node, top, mid, leaf, IsTree, mapped}
use ch_os.Memory.PageTable.Grow.{IsTable, Kept, frame_alloc-Fresh}
use ch_os.Memory.PageTable.Refine.{page_entry, page_entry-mapped}

-- The nodes of the table hold the same words.
abbrev pub SameNodes : (ℕ → Option Node) → (ℕ → ℕ → ℕ) → (ℕ → ℕ → ℕ) → Type 0
SameNodes owner words words' = (f i : ℕ) (n : Node) → owner f ≡ some n → words' f i ≡ words f i

module _ {owner : ℕ → Option Node} {words words' : ℕ → ℕ → ℕ} {root : ℕ}
    (t : IsTree owner words root) (same : SameNodes owner words words') where
  pub IsTree-same : IsTree owner words' root
  IsTree-same = record {
    rooted = t.rooted;
    linked = λ f i n c o p v. ground (arith, same f i n o, t.linked f i n c o p);
  }

  pub mapped-same : (i j k : ℕ) → mapped words' root i j k ≡ mapped words root i j k
  mapped-same i j k =
      let x = Entry.ppn (words root i) in
      ground (
        arith,
        t.rooted,
        same root i top t.rooted,
        same x j (mid i),
        same (Entry.ppn (words x j)) k (leaf i j),
        t.linked root i top (mid i) t.rooted refl,
        t.linked x j (mid i) (leaf i j),
      )

pub page_entry-same :
    {owner : ℕ → Option Node} {words words' : ℕ → ℕ → ℕ} (pt : PageTable) (v : ℕ)
    → IsTree owner words pt.root_ppn
    → SameNodes owner words words'
    → page_entry words' pt v ≡ page_entry words pt v
page_entry-same {owner} {words} {words'} pt v t same =
    page_entry-mapped words' pt v ∙ mapped-same t same _ _ _ ∙ sym (page_entry-mapped words pt v)

-- A frame that is handed out anew leaves the table as it is, and is no node of it.
pub record Taken (start : ℕ) (owner : ℕ → Option Node) (pt : PageTable) (m : Machine) (g : ℕ)
    (m' : Machine) : Type 0 where
  pub table : IsTable start owner pt m'
  pub same_pages : (v : ℕ) → page_entry m'.words pt v ≡ page_entry m.words pt v
  pub kept : Kept start owner m owner m'
  pub unused : is_allocated start m.allocator g ≡ false
  pub allocated : is_allocated start m'.allocator g ≡ true
  pub unowned : owner g ≡ none
  pub small : g < 2 ^ 44
  pub count : free_frames m.allocator ≡ free_frames m'.allocator + 1

pub frame_alloc-Taken :
    (start : ℕ) {owner : ℕ → Option Node} (pt : PageTable) (m : Machine)
    → IsTable start owner pt m
    → Meets (free_frames m.allocator ≡ 0) (λ (g, m'). Taken start owner pt m g m') (frame_alloc m)
frame_alloc-Taken start {owner} pt m t =
    Meets-mono _ (frame_alloc m) (frame_alloc-Fresh start m t.frames_valid) (λ e. e)
      (λ (g, m') r.
        let unowned : owner g ≡ none = elim (Option-cases (owner g)) [
          | inl e ↦ e
          | inr (n, e) ↦ cc (t.owned g n e, r.unused)
        ] in
        let same : SameNodes owner m.words m'.words =
          λ f i n o. ground (arith, ap (λ w. w f i) r.cleared) in
        record {
          table = record {
            tree = IsTree-same t.tree same;
            frames_valid = r.frames_valid;
            owned = λ f n o. ground (arith, r.taken f, t.owned f n o);
          };
          same_pages = λ v. page_entry-same pt v t.tree same;
          kept = record {
            allocated = λ q h. ground (arith, r.taken q);
            unowned = λ q h o. o;
            same_data = λ q w h o. ground (arith, r.unused, ap (λ ws. ws q w) r.cleared);
          };
          unused = r.unused;
          allocated = ground (arith, r.taken g);
          unowned = unowned;
          small = r.small;
          count = r.count;
        })
