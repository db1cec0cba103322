-- ===== src/Memory/PageTable/Tree.antt =====
-- The tree that a page table is: every frame of it is one node, so a write to one entry is seen on
-- one path only.
use ch_os.Base.{
  ℕ, ◌≡◌, refl, true, false, ◌&&◌, Option, none, some, arith, ◌==◌, if◌then◌else◌, update,
  Option-cases, inl, inr, ◌⊎◌, ◌<◌, ◌^◌,
}
use ch_os.Memory.Entry
use ch_os.Memory.Entry.{flag_v, link_fields, is_valid-zero}
use ch_os.Memory.PageTable.{write_word, clear_frame}

-- A node is the indexes that lead to it.
pub data Node : Type 0 where
  top : Node
  mid : ℕ → Node
  leaf : ℕ → ℕ → Node

abbrev pub child : Node → ℕ → Option Node
child top i = some (mid i)
child (mid i) j = some (leaf i j)
child (leaf i j) k = none

-- `owner` says which node a frame is.
pub record IsTree (owner : ℕ → Option Node) (words : ℕ → ℕ → ℕ) (root : ℕ) : Type 0 where
  pub rooted : owner root ≡ some top
  pub linked :
      (f i : ℕ) (n c : Node)
      → owner f ≡ some n
      → child n i ≡ some c
      → Entry.is_valid (words f i) ≡ true
      → owner (Entry.ppn (words f i)) ≡ some c

-- The frame below an entry, and the entry of a page: those that are valid.
abbrev pub below : (ℕ → ℕ → ℕ) → ℕ → ℕ → Option ℕ
below words f i = if Entry.is_valid (words f i) then some (Entry.ppn (words f i)) else none

abbrev pub leaf_frame : (ℕ → ℕ → ℕ) → ℕ → ℕ → ℕ → Option ℕ
leaf_frame words root i j = elim (below words root i) [ none ↦ none | some f ↦ below words f j ]

abbrev pub mapped : (ℕ → ℕ → ℕ) → ℕ → ℕ → ℕ → ℕ → Option ℕ
mapped words root i j k = elim (leaf_frame words root i j) [
  | none ↦ none
  | some f ↦ if Entry.is_valid (words f k) then some (words f k) else none
]

module _ {owner : ℕ → Option Node} {words : ℕ → ℕ → ℕ} {root : ℕ}
    (t : IsTree owner words root) where
  pub below-owner :
      {f : ℕ} (n c : Node) (i : ℕ) {g : ℕ}
      → owner f ≡ some n
      → child n i ≡ some c
      → below words f i ≡ some g
      → owner g ≡ some c
  below-owner {f} n c i {g} h e b = ground (arith, t.linked f i n c)

  pub leaf_frame-owner :
      (i j : ℕ) {f : ℕ} → leaf_frame words root i j ≡ some f → owner f ≡ some (leaf i j)
  leaf_frame-owner i j {f} e = ground (
    arith,
    t.rooted,
    t.linked root i top (mid i) t.rooted refl,
    t.linked (Entry.ppn (words root i)) j (mid i) (leaf i j),
  )

  -- A write to a leaf entry leaves every path as it is.
  pub leaf_frame-write :
      (a b f k bits i j : ℕ)
      → owner f ≡ some (leaf a b)
      → leaf_frame (write_word words f k bits) root i j ≡ leaf_frame words root i j
  leaf_frame-write a b f k bits i j h = ground (
    arith,
    t.rooted,
    t.linked root i top (mid i) t.rooted refl,
    t.linked (Entry.ppn (words root i)) j (mid i) (leaf i j),
  )

  pub IsTree-write_leaf :
      (a b f k bits : ℕ) → owner f ≡ some (leaf a b) → IsTree owner (write_word words f k bits) root
  IsTree-write_leaf a b f k bits h = record {
    rooted = t.rooted;
    linked = λ f' i n c p e v. ground (arith, t.linked f' i n c p e);
  }

  -- A write to the entry of a page maps or unmaps that page, and no other.
  pub mapped-write :
      (i j k i' j' k' bits : ℕ) {f : ℕ}
      → leaf_frame words root i j ≡ some f
      → mapped (write_word words f k bits) root i' j' k' ≡ (
          if (i' == i) && (j' == j) && (k' == k)
          then (if Entry.is_valid bits then some bits else none)
          else mapped words root i' j' k')
  mapped-write i j k i' j' k' bits {f} e =
      rw (leaf_frame-write i j f k bits i' j' (leaf_frame-owner i j e), mapped)
        (elim (Option-cases (leaf_frame words root i' j')) [
          | inl e' ↦ ground (arith, e, e')
          | inr (f', e') ↦ ground (arith, leaf_frame-owner i j e, leaf_frame-owner i' j' e')
        ])

  -- A new, empty node below an entry that was not valid.
  module _ (f i g : ℕ) (n c : Node) (owned : owner f ≡ some n) (placed : child n i ≡ some c)
      (fresh : owner g ≡ none) (missing : Entry.is_valid (words f i) ≡ false)
      (small : g < 2 ^ 44) where
    abbrev pub grown : ℕ → ℕ → ℕ
    grown = write_word (clear_frame words g) f i (Entry.entry g flag_v)

    -- The new node has no valid entry, and the others have what they had, but for the new link.
    below-grown_new : (i' : ℕ) → below grown g i' ≡ none
    below-grown_new i' = ground (arith, is_valid-zero)

    below-grown_old :
        (f' i' : ℕ) (n' : Node)
        → owner f' ≡ some n'
        → below grown f' i' ≡ (if (f' == f) && (i' == i) then some g else below words f' i')
    below-grown_old f' i' n' h = ground (arith, link_fields g small)

    pub IsTree-grown : IsTree (update owner g (some c)) grown root
    IsTree-grown = record {
      rooted = ground (arith, t.rooted);
      linked = λ f' i' n' c' p e v.
          ground (arith, t.linked f' i' n' c', link_fields g small, is_valid-zero);
    }

    leaf_frame-grown-some :
        (i' j : ℕ) {f' : ℕ}
        → leaf_frame words root i' j ≡ some f'
        → leaf_frame grown root i' j ≡ some f'
    leaf_frame-grown-some i' j e =
        let x = Entry.ppn (words root i') in
        ground (
          arith,
          t.rooted,
          t.linked root i' top (mid i') t.rooted refl,
          below-grown_old root i' top t.rooted,
          below-grown_old x j (mid i'),
          missing,
        )

    leaf_frame-grown-none :
        (i' j : ℕ)
        → leaf_frame words root i' j ≡ none
        → (leaf_frame grown root i' j ≡ none) ⊎ (leaf_frame grown root i' j ≡ some g)
    leaf_frame-grown-none i' j e =
        let x = Entry.ppn (words root i') in
        ground (
          arith,
          t.rooted,
          t.linked root i' top (mid i') t.rooted refl,
          below-grown_old root i' top t.rooted,
          below-grown_old x j (mid i'),
          below-grown_new j,
        )

    -- No page becomes mapped or unmapped by it.
    pub mapped-grown : (i' j k : ℕ) → mapped grown root i' j k ≡ mapped words root i' j k
    mapped-grown i' j k = elim (Option-cases (leaf_frame words root i' j)) [
      | inl e ↦ elim (leaf_frame-grown-none i' j e) [
        | inl e' ↦ rw (e, e', mapped)
        | inr e' ↦ rw (e, e', mapped) (ground (arith, below-grown_new k))
      ]
      | inr (f', e) ↦
          rw (e, leaf_frame-grown-some i' j e, mapped) (ground (arith, leaf_frame-owner i' j e))
    ]
