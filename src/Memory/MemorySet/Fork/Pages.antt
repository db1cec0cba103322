-- ===== src/Memory/MemorySet/Fork/Pages.antt =====
-- The loop of `from_existed_user` that copies the pages of one area.
use ch_os.Base.{
  ℕ, ◌<◌, ◌^◌, ◌≡◌, ◌≢◌, refl, sym, ap, ◌∙◌, subst, true, false, List, [], ◌∷◌, Option, none, some,
  arith, ◌==◌, contains, Distinct, Bool-cases, inl, inr, ==-ne, ==-refl,
}
use ch_os.Base.Outcome.{done}
use ch_os.Memory.Entry
use ch_os.Memory.Entry.{flag_v, entry_fields}
use ch_os.Memory.PageTable.{Machine}
use ch_os.Memory.PageTable.Tree.{Node, IsTree}
use ch_os.Memory.PageTable.Refine.{page_entry}
use ch_os.Memory.PageTable.Data.{SameNodes, IsTree-same, page_entry-same}
use ch_os.Memory.MemorySet.{MemorySet, translate}
use ch_os.Memory.MemorySet.Fork.{copy_pages, copy_frame}

-- A table that maps each page of a list to a frame that is known; no frame of `dst` is a node of it.
pub record MapsTo (owner : ℕ → Option Node) (ms : MemorySet) (m : Machine) (vpns : List ℕ)
    (frame : ℕ → ℕ) (flags : ℕ) (dst : ℕ → ℕ) : Type 0 where
  pub tree : IsTree owner m.words ms.page_table.root_ppn
  pub entries :
      (v : ℕ)
      → contains v vpns ≡ true
      → page_entry m.words ms.page_table v ≡ some (Entry.entry (frame v) flags)
  pub small : (v : ℕ) → contains v vpns ≡ true → frame v < 2 ^ 44
  pub apart : (v : ℕ) → contains v vpns ≡ true → owner (dst v) ≡ none

-- A page that has a valid entry is found by `translate`.
pub translate-page_entry :
    (ms : MemorySet) (m : Machine) (v bits : ℕ)
    → page_entry m.words ms.page_table v ≡ some bits
    → translate ms v m ≡ some bits
unfolding translate
translate-page_entry ms m v bits e = ground arith

-- What is left by copying the frames `src` of the pages to the frames `dst`.
pub record Copied (m : Machine) (vpns : List ℕ) (src dst : ℕ → ℕ) (m' : Machine) : Type 0 where
  pub same_allocator : m'.allocator ≡ m.allocator
  pub contents : (v w : ℕ) → contains v vpns ≡ true → m'.words (dst v) w ≡ m.words (src v) w
  pub others :
      (p w : ℕ) → ((v : ℕ) → contains v vpns ≡ true → p ≢ dst v) → m'.words p w ≡ m.words p w

-- A number that a list does not have is none of its elements.
absent_ne : (a b : ℕ) (l : List ℕ) → contains a l ≡ false → contains b l ≡ true → a ≢ b
absent_ne a b l f t e = ground arith

-- One page more.
Copied-cons :
    (m m' : Machine) (vpn : ℕ) (rest : List ℕ) (src dst : ℕ → ℕ)
    → ((v : ℕ) → contains v rest ≡ true → dst vpn ≢ dst v)
    → ((v : ℕ) → contains v (vpn ∷ rest) ≡ true → src v ≢ dst vpn)
    → Copied (record m { words = copy_frame m.words (dst vpn) (src vpn) }) rest src dst m'
    → Copied m (vpn ∷ rest) src dst m'
Copied-cons m m' vpn rest src dst separate fresh c = record {
  same_allocator = c.same_allocator;
  contents = λ v w h. elim (Bool-cases (v == vpn)) [
    | inl e ↦
        let same : v ≡ vpn = ground (arith, e) in
        subst (λ u. m'.words (dst u) w ≡ m.words (src u) w) (sym same)
          (c.others (dst vpn) w separate ∙ rw (==-refl (dst vpn)) refl)
    | inr e ↦ c.contents v w (ground arith) ∙ rw (==-ne (src v) (dst vpn) (fresh v h)) refl
  ];
  others = λ p w h.
      c.others p w (λ v g. h v (ground arith)) ∙ rw (==-ne p (dst vpn) (h vpn (ground arith))) refl;
}

module _ (user_space ms : MemorySet) (owner owner' : ℕ → Option Node) (src dst : ℕ → ℕ) (flags : ℕ)
    (flags_small : flags < 2 ^ 8) where
  -- The tables are the same after one page, and so are the pages to come.
  MapsTo-copy_frame :
      (table : MemorySet) (o : ℕ → Option Node) (m : Machine) (vpn : ℕ) (rest : List ℕ)
      (frame : ℕ → ℕ)
      → MapsTo o table m (vpn ∷ rest) frame flags dst
      → MapsTo o table
          (record m { words = copy_frame m.words (dst vpn) (src vpn) })
          rest
          frame
          flags
          dst
  MapsTo-copy_frame table o m vpn rest frame t =
      let words' = copy_frame m.words (dst vpn) (src vpn) in
      let same : SameNodes o m.words words' =
        λ f i n h. ground (arith, t.apart vpn (ground arith), ap o) in
      record {
        tree = IsTree-same t.tree same;
        entries =
            λ v h. page_entry-same table.page_table v t.tree same ∙ t.entries v (ground arith);
        small = λ v h. t.small v (ground arith);
        apart = λ v h. t.apart v (ground arith);
      }

  -- The body of the loop.
  copy_pages-step :
      (m : Machine) (vpn : ℕ) (rest : List ℕ)
      → MapsTo owner user_space m (vpn ∷ rest) src flags dst
      → MapsTo owner' ms m (vpn ∷ rest) dst flags dst
      → copy_pages (vpn ∷ rest) user_space ms m
        ≡ copy_pages rest user_space ms
            (record m { words = copy_frame m.words (dst vpn) (src vpn) })
  unfolding copy_pages
  copy_pages-step m vpn rest s t =
      let here : contains vpn (vpn ∷ rest) ≡ true = ground arith in
      rw
        (
          translate-page_entry user_space m vpn _ (s.entries vpn here),
          translate-page_entry ms m vpn _ (t.entries vpn here),
          (entry_fields (src vpn) flags (s.small vpn here) flags_small).0,
          (entry_fields (dst vpn) flags (t.small vpn here) flags_small).0,
        )
        refl

  -- Where both address spaces map each page of the list, a page of the first to the frame `src` of
  -- it and one of the second to `dst`, frames of different pages are different, and no frame of
  -- `dst` is one of `src` or a node of a table, the loop ends. Each frame of `dst` then holds what
  -- the frame of `src` held; every other frame and the allocator are as before.
  pub copy_pages-Copied :
      (vpns : List ℕ) (m : Machine)
      → Distinct vpns
      → MapsTo owner user_space m vpns src flags dst
      → MapsTo owner' ms m vpns dst flags dst
      → ((v v' : ℕ) → contains v vpns ≡ true → contains v' vpns ≡ true → dst v ≡ dst v' → v ≡ v')
      → ((v v' : ℕ) → contains v vpns ≡ true → contains v' vpns ≡ true → src v ≢ dst v')
      → (m' : Machine) × (copy_pages vpns user_space ms m ≡ done m') × Copied m vpns src dst m'
  unfolding copy_pages
  copy_pages-Copied [] m distinct s t injective fresh =
      (m, refl, record { same_allocator = refl; contents = λ v w h. cc h; others = λ p w h. refl })
  copy_pages-Copied (vpn ∷ rest) m distinct s t injective fresh =
      let words₁ = copy_frame m.words (dst vpn) (src vpn) in
      let m₁ : Machine = record m { words = words₁ } in
      let (m', e, c) =
        copy_pages-Copied rest m₁ distinct.1 (MapsTo-copy_frame user_space owner m vpn rest src s)
          (MapsTo-copy_frame ms owner' m vpn rest dst t)
          (λ v v' h h'. injective v v' (ground arith) (ground arith))
          (λ v v' h h'. fresh v v' (ground arith) (ground arith)) in
      (
        m',
        copy_pages-step m vpn rest s t ∙ e,
        Copied-cons m m' vpn rest src dst
            (λ v h e.
              absent_ne vpn v rest distinct.0 h (injective vpn v (ground arith) (ground arith) e))
            (λ v h. fresh v vpn h (ground arith)) c,
      )
