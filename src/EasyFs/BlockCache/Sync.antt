-- ===== src/EasyFs/BlockCache/Sync.antt =====
-- `modify` through the cache, and `block_cache_sync_all`: what the layers above rely on.
use ch_os.Base.{
  ℕ, ◌+◌, ◌-◌, ◌≤◌, ◌≡◌, leb, ◌≢◌, refl, true, false, none, some, List, [], ◌∷◌, arith, ◌==◌,
  if◌then◌else◌,
}
use ch_os.Base.Outcome.{done, Meets, Meets->>=}
use ch_os.EasyFs.BlockCache.{
  BlockCache, BlockDevice, find, change, sync, Manager, get_block_cache, release, modify,
  modify_block, block_cache_sync_all, sync_from,
}
use ch_os.EasyFs.BlockCache.Queue.{DistinctIds, find-change}
use ch_os.EasyFs.BlockCache.Transparent.{
  view, IsValid, Exhausted, get_block_cache-Kept, view-changed, IsValid-changed, sync_self,
  sync-other,
}

module _ {Block : Type 0} (D : BlockDevice Block) where
  open D use {State, read_block}

  modify-view :
      (b b' offset type_size : ℕ) (f : Block → Block) (m : Manager D)
      → offset + type_size ≤ 512
      → IsValid D m
      → find b m.queue ≢ none
      → (m' : Manager D) × (modify D b offset type_size f m ≡ done m')
        × IsValid D m'
        × (view D m' b' ≡ (if b' == b then f (view D m b) else view D m b'))
        × (find b m'.queue ≢ none)
  unfolding modify
  modify-view b b' offset type_size f m fits v here =
      let mark = λ (c : BlockCache Block). record c { cache = f c.cache; modified = true } in
      let inside : leb (offset + type_size) 512 ≡ true = ground arith in
      (
        record m { queue = change b mark m.queue },
        rw inside refl,
        IsValid-changed D m v b mark (λ c. refl) (λ c k. cc),
        view-changed D m v b mark (λ c. refl) b' f (λ c. refl) here,
        ground (arith, here, find-change mark (λ c. refl) b b m.queue),
      )

  release-view :
      (b b' : ℕ) (m : Manager D)
      → IsValid D m
      → find b m.queue ≢ none
      → IsValid D (release D b m) × (view D (release D b m) b' ≡ view D m b')
  unfolding release
  release-view b b' m v here =
      let drop = λ (c : BlockCache Block). record c { holders = c.holders - 1 } in
      (
        IsValid-changed D m v b drop (λ c. refl) (λ c k. (k, refl)),
        ground (arith, view-changed D m v b drop (λ c. refl) b' (λ x. x) (λ c. refl) here),
      )

  -- In a valid cache, modifying a block changes its contents by the closure, and those of no
  -- other block, whatever is evicted on the way, and leaves the cache valid. It panics only
  -- where the block is not cached and all sixteen entries are held.
  pub modify_block-view :
      (b b' : ℕ) (f : Block → Block) (m : Manager D)
      → IsValid D m
      → Meets
          (Exhausted D m × (find b m.queue ≡ none))
          (λ m'. IsValid D m' × (view D m' b' ≡ (if b' == b then f (view D m b) else view D m b')))
          (modify_block D b f m)
  unfolding modify_block
  modify_block-view b b' f m v =
      Meets->>= _ (get_block_cache D b m) _ (get_block_cache-Kept D b m v) (λ e. e)
        (λ m₁ (kept, here).
          let (m₂, e, v₂, seen, here₂) =
            modify-view b b' 0 512 f m₁ (omega arith) kept.valid here in
          let (v₃, same) = release-view b b' m₂ v₂ here₂ in
          rw e (v₃, ground (arith, same, seen, kept.same b, kept.same b')))

  sync-fields :
      (c : BlockCache Block) (s : State)
      → ((sync D c s).0.block_id ≡ c.block_id) × ((sync D c s).0.cache ≡ c.cache)
  unfolding sync
  sync-fields c s = ground arith

  -- The loop of `block_cache_sync_all`.
  Synced :
      (cs : List (BlockCache Block)) (s : State) (b : ℕ)
      → DistinctIds cs
      → ((b' : ℕ) (c : BlockCache Block)
          → find b' cs ≡ some c
          → c.modified ≡ false
          → c.cache ≡ read_block s b')
      → (read_block (sync_from D cs s).1 b
          ≡ elim (find b cs) [ some c ↦ c.cache | none ↦ read_block s b ])
        × ((elim (find b (sync_from D cs s).0) [ some c ↦ some c.cache | none ↦ none ])
            ≡ (elim (find b cs) [ some c ↦ some c.cache | none ↦ none ]))
  unfolding sync_from find
  Synced [] s b d h = (refl, refl)
  Synced (c ∷ cs) s b d h = ground (
    arith,
    Synced cs (sync D c s).1 b d.1 (λ b' c' e k. ground (arith, d.0, h b' c', sync-other D c s b')),
    sync-fields c s,
    sync_self D c s (h c.block_id c (ground arith)),
    sync-other D c s b,
    d.0,
  )

  -- From a valid cache, after `block_cache_sync_all` the device holds the contents of every
  -- block, cached or not, and the contents are what they were.
  pub view-block_cache_sync_all :
      (b : ℕ) (m : Manager D)
      → IsValid D m
      → (read_block (block_cache_sync_all D m).device b ≡ view D m b)
        × (view D (block_cache_sync_all D m) b ≡ view D m b)
  unfolding block_cache_sync_all
  view-block_cache_sync_all b m v = ground (arith, Synced m.queue m.device b v.distinct v.clean)
