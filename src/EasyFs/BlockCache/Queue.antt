-- ===== src/EasyFs/BlockCache/Queue.antt =====
-- The queue of cached blocks: at most one entry for a block, and what the searches and changes do.
use ch_os.Base.{
  ℕ, ◌+◌, ◌≡◌, ◌≢◌, refl, Bool, true, false, Option, none, some, List, [], ◌∷◌, ◌++◌, arith, ◌==◌,
  if◌then◌else◌, length, Bool-cases, inl, inr,
}
use ch_os.EasyFs.BlockCache.{BlockCache, find, take_unheld, change}

module _ {Block : Type 0} where
  abbrev pub DistinctIds : List (BlockCache Block) → Type 0
  DistinctIds [] = Unit {0}
  DistinctIds (c ∷ cs) = (find c.block_id cs ≡ none) × DistinctIds cs

  pub find-id :
      (b : ℕ) (cs : List (BlockCache Block)) {c : BlockCache Block}
      → find b cs ≡ some c
      → c.block_id ≡ b
  unfolding find
  find-id b [] e = ground arith
  find-id b (d ∷ cs) {c} e = ground (arith, find-id b cs {c = c})

  module _ (f : BlockCache Block → BlockCache Block)
      (keeps : (c : BlockCache Block) → (f c).block_id ≡ c.block_id) where
    -- Only the entry of the block changes.
    pub find-change :
        (b b' : ℕ) (cs : List (BlockCache Block))
        → find b' (change b f cs)
          ≡ (if b' == b then elim (find b cs) [ none ↦ none | some c ↦ some (f c) ] else find b' cs)
    unfolding find change
    find-change b b' [] = ground arith
    find-change b b' (c ∷ cs) = ground (arith, keeps c, find-change b b' cs)

    pub length-change : (b : ℕ) (cs : List (BlockCache Block)) → length (change b f cs) ≡ length cs
    unfolding change
    length-change b [] = refl
    length-change b (c ∷ cs) = ground (arith, length-change b cs)

    find-change-none :
        (b b' : ℕ) (cs : List (BlockCache Block))
        → find b' cs ≡ none
        → find b' (change b f cs) ≡ none
    find-change-none b b' cs e = ground (arith, find-change b b' cs)

    pub DistinctIds-change :
        (b : ℕ) (cs : List (BlockCache Block)) → DistinctIds cs → DistinctIds (change b f cs)
    unfolding change
    DistinctIds-change b [] d = tt
    DistinctIds-change b (c ∷ cs) d = elim (Bool-cases (c.block_id == b)) [
      | inl same ↦ rw same (rw (keeps c) d.0, d.1)
      | inr other ↦ rw other (find-change-none b c.block_id cs d.0, DistinctIds-change b cs d.1)
    ]

  pub find-append :
      (b : ℕ) (cs : List (BlockCache Block)) (c : BlockCache Block)
      → find b (cs ++ (c ∷ []))
        ≡ elim (find b cs) [ some d ↦ some d | none ↦ if c.block_id == b then some c else none ]
  unfolding find
  find-append b [] c = refl
  find-append b (d ∷ cs) c = ground (arith, find-append b cs c)

  pub DistinctIds-append :
      (cs : List (BlockCache Block)) (c : BlockCache Block)
      → DistinctIds cs
      → find c.block_id cs ≡ none
      → DistinctIds (cs ++ (c ∷ []))
  unfolding find
  DistinctIds-append [] c d e = (refl, tt)
  DistinctIds-append (x ∷ cs) c d e =
      (ground (arith, find-append x.block_id cs c), DistinctIds-append cs c d.1 (ground arith))

  -- What `take_unheld` takes out, and what stays.
  pub record Taken (cs : List (BlockCache Block)) (c : BlockCache Block)
      (rest : List (BlockCache Block)) : Type 0 where
    pub unheld : c.holders ≡ 0
    pub was : find c.block_id cs ≡ some c
    pub gone : find c.block_id rest ≡ none
    pub others : (b : ℕ) → b ≢ c.block_id → find b rest ≡ find b cs
    pub distinct : DistinctIds rest
    pub shorter : length cs ≡ length rest + 1

  Taken-head :
      (c : BlockCache Block) (cs : List (BlockCache Block))
      → DistinctIds (c ∷ cs)
      → c.holders ≡ 0
      → Taken (c ∷ cs) c cs
  unfolding find
  Taken-head c cs d h = record {
    unheld = h;
    was = ground arith;
    gone = d.0;
    others = λ b n. ground arith;
    distinct = d.1;
    shorter = omega arith;
  }

  Taken-tail :
      (x : BlockCache Block) (cs : List (BlockCache Block)) (c : BlockCache Block)
      (rest : List (BlockCache Block))
      → DistinctIds (x ∷ cs)
      → Taken cs c rest
      → Taken (x ∷ cs) c (x ∷ rest)
  unfolding find
  Taken-tail x cs c rest d t = record {
    unheld = t.unheld;
    was = ground (arith, t.was, d.0);
    gone = ground (arith, t.was, d.0, t.gone);
    others = λ b n. ground (arith, t.others b n);
    distinct = (ground (arith, t.was, d.0, t.others x.block_id), t.distinct);
    shorter = omega (arith, t.shorter);
  }

  abbrev pub TakenBy :
      List (BlockCache Block) → Option (BlockCache Block × List (BlockCache Block)) → Type 0
  TakenBy cs none = Unit {0}
  TakenBy cs (some (c, rest)) = Taken cs c rest

  pub take_unheld-Taken :
      (cs : List (BlockCache Block)) → DistinctIds cs → TakenBy cs (take_unheld cs)
  unfolding take_unheld
  take_unheld-Taken [] d = tt
  take_unheld-Taken (x ∷ cs) d = elim (Bool-cases (x.holders + 1 == 1)) [
    | inl free ↦ rw free (Taken-head x cs d (ground arith))
    | inr held ↦ rw held (later (take_unheld cs) (take_unheld-Taken cs d.1))
  ]
    where
      later :
          (o : Option (BlockCache Block × List (BlockCache Block)))
          → TakenBy cs o
          → TakenBy (x ∷ cs) (elim o [ none ↦ none | some (c, rest) ↦ some (c, x ∷ rest) ])
      later none t = tt
      later (some (c, rest)) t = Taken-tail x cs c rest d t

  -- It finds nothing only where every entry is held.
  abbrev pub all_held : List (BlockCache Block) → Bool
  all_held [] = true
  all_held (c ∷ cs) = if c.holders == 0 then false else all_held cs

  pub take_unheld-none : (cs : List (BlockCache Block)) → take_unheld cs ≡ none → all_held cs ≡ true
  unfolding take_unheld
  take_unheld-none [] e = refl
  take_unheld-none (c ∷ cs) e = ground (arith, take_unheld-none cs)
