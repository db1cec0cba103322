-- ===== src/EasyFs/BlockCache/Transparent.antt =====
-- The cache does not change what is read: a block's contents are those of its entry, or else those
-- on the device, and only `modify` changes them.
use ch_os.Base.{
  ℕ, ◌≤◌, ◌<◌, ◌≡◌, ◌≢◌, refl, sym, ◌∙◌, true, false, Option, none, some, List, [], ◌∷◌, ◌++◌,
  arith, ◌==◌, if◌then◌else◌, length, Bool-cases, Option-cases, inl, inr, length-append,
}
use ch_os.Base.Outcome.{done, panic, Meets, Meets->>=}
use ch_os.EasyFs.BlockCache.{
  BlockCache, BlockDevice, find, take_unheld, change, load, sync, Manager, make_room,
  get_block_cache, hold, block_cache_size,
}
use ch_os.EasyFs.BlockCache.Queue.{
  DistinctIds, find-change, length-change, DistinctIds-change, find-append, DistinctIds-append,
  Taken, TakenBy, take_unheld-Taken, all_held, take_unheld-none,
}

module _ {Block : Type 0} (D : BlockDevice Block) where
  open D use {State, read_block, write_block, read_written, read_other}

  -- The contents of a block as a client reads them.
  abbrev pub view : Manager D → ℕ → Block
  view m b = elim (find b m.queue) [ some c ↦ c.cache | none ↦ read_block m.device b ]

  pub record IsValid (m : Manager D) : Type 0 where
    pub distinct : DistinctIds m.queue
    pub bounded : length m.queue ≤ block_cache_size
    pub clean :
        (b : ℕ) (c : BlockCache Block)
        → find b m.queue ≡ some c
        → c.modified ≡ false
        → c.cache ≡ read_block m.device b

  -- Syncing an entry leaves its contents on the device, and nothing else changes there.
  pub sync_self :
      (c : BlockCache Block) (s : State)
      → (c.modified ≡ false → c.cache ≡ read_block s c.block_id)
      → read_block (sync D c s).1 c.block_id ≡ c.cache
  unfolding sync
  sync_self c s h = elim (Bool-cases c.modified) [
    | inl e ↦ rw (e, sync) (read_written s c.block_id c.cache)
    | inr e ↦ rw (e, sync) (sym (h e))
  ]

  pub sync-other :
      (c : BlockCache Block) (s : State) (b : ℕ)
      → b ≢ c.block_id
      → read_block (sync D c s).1 b ≡ read_block s b
  unfolding sync
  sync-other c s b n = elim (Bool-cases c.modified) [
    | inl e ↦ rw (e, sync) (read_other s c.block_id b c.cache (λ p. n (sym p)))
    | inr e ↦ rw (e, sync) refl
  ]

  -- Dropping an entry that nobody holds.
  module _ (m : Manager D) (v : IsValid m) (c : BlockCache Block) (rest : List (BlockCache Block))
      (t : Taken m.queue c rest) where
    abbrev dropped : Manager D
    dropped = record { queue = rest; device = (sync D c m.device).1 }

    view-dropped : (b : ℕ) → view dropped b ≡ view m b
    view-dropped b = elim (Bool-cases (b == c.block_id)) [
      | inl e ↦ ground (arith, t.was, t.gone, sync_self c m.device (v.clean c.block_id c t.was))
      | inr e ↦ ground (arith, t.others b, sync-other c m.device b)
    ]

    IsValid-dropped : IsValid dropped
    IsValid-dropped = record {
      distinct = t.distinct;
      bounded = omega (arith, t.shorter, v.bounded);
      clean = λ b d e k. ground (arith, t.gone, t.others b, v.clean b d, sync-other c m.device b);
    }

  -- What `make_room` and `get_block_cache` keep.
  pub record Kept (m m' : Manager D) : Type 0 where
    pub valid : IsValid m'
    pub same : (b : ℕ) → view m' b ≡ view m b

  -- Where every one of the sixteen entries is held.
  abbrev pub Exhausted : Manager D → Type 0
  Exhausted m = (length m.queue ≡ block_cache_size) × (all_held m.queue ≡ true)

  pub make_room-Kept :
      (m : Manager D) (b : ℕ)
      → IsValid m
      → find b m.queue ≡ none
      → Meets
          (Exhausted m)
          (λ m'. Kept m m' × (length m'.queue < block_cache_size) × (find b m'.queue ≡ none))
          (make_room D m)
  unfolding make_room
  make_room-Kept m b v absent = elim (Bool-cases (length m.queue == block_cache_size)) [
    | inl full ↦
        rw (full, make_room)
          (from (take_unheld m.queue) refl (take_unheld-Taken m.queue v.distinct) (ground arith))
    | inr room ↦
        rw (room, make_room)
          (record { valid = v; same = λ b'. refl }, ground (arith, v.bounded), absent)
  ]
    where
      from :
          (o : Option (BlockCache Block × List (BlockCache Block)))
          → take_unheld m.queue ≡ o
          → TakenBy m.queue o
          → length m.queue ≡ block_cache_size
          → Meets
              (Exhausted m)
              (λ m'. Kept m m' × (length m'.queue < block_cache_size) × (find b m'.queue ≡ none))
              (elim o [
                | none ↦ panic
                | some (c, rest) ↦ done (record { queue = rest; device = (sync D c m.device).1 })
              ])
      from none e t full = (full, take_unheld-none m.queue e)
      from (some (c, rest)) e t full = (
        record { valid = IsValid-dropped m v c rest t; same = view-dropped m v c rest t },
        omega (arith, t.shorter),
        ground (arith, t.others b, t.gone),
      )

  -- A change of the entries of one block that keeps its contents and its mark.
  module _ (m : Manager D) (v : IsValid m) (b : ℕ) (f : BlockCache Block → BlockCache Block)
      (keeps : (c : BlockCache Block) → (f c).block_id ≡ c.block_id) where
    abbrev pub changed : Manager D
    changed = record m { queue = change b f m.queue }

    pub view-changed :
        (b' : ℕ) (g : Block → Block)
        → ((c : BlockCache Block) → (f c).cache ≡ g c.cache)
        → find b m.queue ≢ none
        → view changed b' ≡ (if b' == b then g (view m b) else view m b')
    view-changed b' g h present = elim (Option-cases (find b m.queue)) [
      | inl e ↦ absurd (present e)
      | inr (c, e) ↦ ground (arith, h c, find-change f keeps b b' m.queue)
    ]

    pub IsValid-changed :
        ((c : BlockCache Block)
          → (f c).modified ≡ false
          → (c.modified ≡ false) × ((f c).cache ≡ c.cache))
        → IsValid changed
    IsValid-changed h = record {
      distinct = DistinctIds-change f keeps b m.queue v.distinct;
      bounded = omega (arith, length-change f keeps b m.queue, v.bounded);
      clean = λ b' d e k. elim (Option-cases (find b m.queue)) [
        | inl none_b ↦ ground (arith, find-change f keeps b b' m.queue, v.clean b' d)
        | inr (c, some_b) ↦
            ground (arith, find-change f keeps b b' m.queue, h c, v.clean b c, v.clean b' d)
      ];
    }

  -- A block just loaded is appended.
  module _ (m : Manager D) (v : IsValid m) (b : ℕ) (absent : find b m.queue ≡ none)
      (room : length m.queue < block_cache_size) where
    abbrev loaded : Manager D
    loaded = record m { queue = m.queue ++ (hold D (load D b m.device) ∷ []) }

    loaded-Kept : Kept m loaded × (find b loaded.queue ≢ none)
    unfolding load
    loaded-Kept =
        let new = hold D (load D b m.device) in
        (
          record {
            valid = record {
              distinct = DistinctIds-append m.queue new v.distinct absent;
              bounded = omega (arith, length-append m.queue (new ∷ []));
              clean = λ b' d e k. ground (arith, find-append b' m.queue new, v.clean b' d);
            };
            same = λ b'. ground (arith, find-append b' m.queue new);
          },
          ground (arith, find-append b m.queue new),
        )

  -- In a valid cache, `get_block_cache` gives a handle to the block, changes the contents of no
  -- block, and leaves the cache valid. It panics only where the block is not cached and all
  -- sixteen entries are held.
  pub get_block_cache-Kept :
      (b : ℕ) (m : Manager D)
      → IsValid m
      → Meets
          (Exhausted m × (find b m.queue ≡ none))
          (λ m'. Kept m m' × (find b m'.queue ≢ none))
          (get_block_cache D b m)
  unfolding get_block_cache
  get_block_cache-Kept b m v = elim (Option-cases (find b m.queue)) [
    | inr (c, e) ↦
        rw (e, get_block_cache)
          (
            record {
              valid = IsValid-changed m v b (hold D) (λ d. refl) (λ d k. (k, refl));
              same = λ b'.
                  ground (arith, view-changed m v b (hold D) (λ d. refl) b' (λ x. x) (λ d. refl));
            },
            ground (arith, e, find-change (hold D) (λ d. refl) b b m.queue),
          )
    | inl absent ↦
        rw (absent, get_block_cache)
          (Meets->>= _ (make_room D m) _ (make_room-Kept m b v absent) (λ x. (x, refl))
            (λ m' (kept, room, gone).
              let (grown, here) = loaded-Kept m' kept.valid b gone room in
              (record { valid = grown.valid; same = λ b'. grown.same b' ∙ kept.same b' }, here)))
  ]
