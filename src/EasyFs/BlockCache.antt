-- ===== src/EasyFs/BlockCache.antt =====
-- easy-fs/src/block_cache.rs over the trait of easy-fs/src/block_dev.rs. The contents of a block
-- are of any type: the cache only moves them, and hands them to the closures of its clients.
pub mod Queue
pub mod Transparent
pub mod Sync
use ch_os.Base.{
  ℕ, zero, suc, ◌+◌, ◌-◌, ◌≡◌, ◌≢◌, Bool, true, false, Option, none, some, List, [], ◌∷◌, ◌++◌,
  ◌==◌, leb, if◌then◌else◌, length,
}
use ch_os.Base.Outcome.{Outcome, done, panic, assert, ◌>>=◌, ◌>>◌}

-- The trait `BlockDevice`, which the drivers implement: what was written last is read.
pub record BlockDevice (Block : Type 0) : Type 1 where
  pub State : Type 0
  pub read_block : State → ℕ → Block
  pub write_block : State → ℕ → Block → State
  pub read_written : (s : State) (b : ℕ) (c : Block) → read_block (write_block s b c) b ≡ c
  pub read_other :
      (s : State) (b b' : ℕ) (c : Block)
      → b ≢ b'
      → read_block (write_block s b c) b' ≡ read_block s b'

-- A cached block. `holders` counts the clones of its `Arc` outside the queue, so its
-- `Arc::strong_count` is one more.
pub record BlockCache (Block : Type 0) : Type 0 where
  pub cache : Block
  pub block_id : ℕ
  pub modified : Bool
  pub holders : ℕ

abbrev pub block_sz : ℕ
block_sz = 512

abbrev pub block_cache_size : ℕ
block_cache_size = 16

module _ {Block : Type 0} where
  -- `self.queue.iter().find(|pair| pair.0 == block_id)`
  unfoldable pub find : ℕ → List (BlockCache Block) → Option (BlockCache Block)
  find b [] = none
  find b (c ∷ cs) = if c.block_id == b then some c else find b cs

  -- The first entry whose strong count is 1, and the queue without it (`drain(idx..=idx)`).
  pub take_unheld : List (BlockCache Block) → Option (BlockCache Block × List (BlockCache Block))
  take_unheld [] = none
  take_unheld (c ∷ cs) =
      if c.holders + 1 == 1
      then some (c, cs)
      else elim (take_unheld cs) [ none ↦ none | some (d, ds) ↦ some (d, c ∷ ds) ]

  -- A change of the entry of one block, through its `Arc`.
  pub change :
      ℕ → (BlockCache Block → BlockCache Block) → List (BlockCache Block) → List (BlockCache Block)
  change b f [] = []
  change b f (c ∷ cs) = if c.block_id == b then f c ∷ cs else c ∷ change b f cs

module _ {Block : Type 0} (D : BlockDevice Block) where
  open D use {State, read_block, write_block}

  -- `BlockCache::new`
  pub load : ℕ → State → BlockCache Block
  load b s = record { cache = read_block s b; block_id = b; modified = false; holders = 0 }

  -- `BlockCache::sync`, which `drop` calls too.
  pub sync : BlockCache Block → State → BlockCache Block × State
  sync c s =
      if c.modified
      then (record c { modified = false }, write_block s c.block_id c.cache)
      else (c, s)

  -- `BLOCK_CACHE_MANAGER` and the device.
  pub record Manager : Type 0 where
    pub queue : List (BlockCache Block)
    pub device : State

  -- Make room where the queue is full: drop the first entry that nobody holds.
  pub make_room : Manager → Outcome Manager
  make_room m =
      if length m.queue == block_cache_size
      then elim (take_unheld m.queue) [
        | none ↦ panic
        | some (c, rest) ↦ done (record { queue = rest; device = (sync c m.device).1 })
      ]
      else done m

  abbrev hold : BlockCache Block → BlockCache Block
  hold c = record c { holders = c.holders + 1 }

  -- The handle that is returned is the block's number; it is held from here on.
  pub get_block_cache : ℕ → Manager → Outcome Manager
  get_block_cache b m = elim (find b m.queue) [
    | some c ↦ done (record m { queue = change b hold m.queue })
    | none ↦ do
      m' ← make_room m
      done (record m' { queue = m'.queue ++ (hold (load b m'.device) ∷ []) })
  ]

  -- The end of a handle's life.
  pub release : ℕ → Manager → Manager
  release b m = record m { queue = change b (λ c. record c { holders = c.holders - 1 }) m.queue }

  -- `read` and `modify` through a handle; a closure's result is left to the caller.
  pub read : {V : Type 0} → ℕ → ℕ → ℕ → (Block → V) → Manager → Outcome (Option V)
  read b offset type_size f m = do
    assert (leb (offset + type_size) block_sz)
    done (elim (find b m.queue) [ none ↦ none | some c ↦ some (f c.cache) ])

  -- A closure on `type_size` bytes from `offset` on is given as its effect on the whole block.
  pub modify : ℕ → ℕ → ℕ → (Block → Block) → Manager → Outcome Manager
  modify b offset type_size f m = do
    assert (leb (offset + type_size) block_sz)
    done (record m {
      queue = change b (λ c. record c { cache = f c.cache; modified = true }) m.queue;
    })

  -- The loop of `block_cache_sync_all`.
  sync_from : List (BlockCache Block) → State → List (BlockCache Block) × State
  sync_from [] s = ([], s)
  sync_from (c ∷ cs) s =
      let (c', s') = sync c s in let (cs', s'') = sync_from cs s' in (c' ∷ cs', s'')

  pub block_cache_sync_all : Manager → Manager
  unfolding sync_from
  block_cache_sync_all m =
      let (queue', device') = sync_from m.queue m.device in
      record { queue = queue'; device = device' }

  -- `get_block_cache(id, device).lock().modify(0, f)` as the layers above write it, on a whole block:
  -- the handle lives for the one statement.
  pub modify_block : ℕ → (Block → Block) → Manager → Outcome Manager
  modify_block b f m = do
    m' ← get_block_cache b m
    m'' ← modify b 0 block_sz f m'
    done (release b m'')
