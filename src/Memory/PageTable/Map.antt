-- ===== src/Memory/PageTable/Map.antt =====
-- The page table as a map from the pages of the address space to entries: what `translate` finds
-- after `map` and `unmap`.
use ch_os.Base.{
  ℕ, ◌+◌, ◌/◌, ◌%◌, ◌^◌, ◌≤◌, ◌<◌, ◌≡◌, ◌≢◌, ◌⊎◌, ◌&&◌, refl, ap, Option, none, some, arith, ◌==◌,
  if◌then◌else◌, bit_or,
}
use ch_os.Base.{update, [], ◌∷◌}
use ch_os.Base.Outcome.{Meets, Meets-mono, Meets->>=, Meets-any, assert, unwrap}
use ch_os.Memory.Address.Pages.{indexes-digits}
use ch_os.Memory.Entry
use ch_os.Memory.Entry.{flag_v, is_valid-zero}
use ch_os.Memory.Frames.Laws.{free_frames, IsValid}
use ch_os.Memory.PageTable.{Machine, PageTable, map_page, unmap_page, find_pte, new, frame_alloc}
use ch_os.Memory.PageTable.Tree.{Node, top}
use ch_os.Memory.PageTable.Grow.{IsTable, Kept, frame_alloc-Fresh}
use ch_os.Memory.PageTable.Refine.{
  Remapped, map_page-Remapped, unmap_page-Remapped, page_entry, page_entry-mapped,
}

-- A well-formed table in which the page `vpn` has the entry `value` and the page `v` what it had.
abbrev pub HasEntry : ℕ → PageTable → Machine → ℕ → ℕ → Option ℕ → PageTable → Machine → Type 0
HasEntry start pt m vpn v value pt' m' =
    ((owner' : ℕ → Option Node) × IsTable start owner' pt' m')
    × (page_entry m'.words pt' v ≡ (if v == vpn then value else page_entry m.words pt v))

-- Two pages of the address space are the same if their indexes are.
same_page :
    (v vpn : ℕ)
    → v < 2 ^ 27
    → vpn < 2 ^ 27
    → ((v / 2 ^ 18 % 512 == vpn / 2 ^ 18 % 512)
        && (v / 2 ^ 9 % 512 == vpn / 2 ^ 9 % 512)
        && (v % 512 == vpn % 512))
      ≡ (v == vpn)
same_page v vpn hv hp = ground arith

-- What a call leaves that gives the page `vpn` the entry `value`, or none.
pub record Edited (start : ℕ) (owner : ℕ → Option Node) (pt : PageTable) (m : Machine) (vpn : ℕ)
    (value : Option ℕ) (pt' : PageTable) (m' : Machine) : Type 0 where
  pub owner' : ℕ → Option Node
  pub table : IsTable start owner' pt' m'
  pub pages :
      (v : ℕ)
      → v < 2 ^ 27
      → page_entry m'.words pt' v ≡ (if v == vpn then value else page_entry m.words pt v)
  pub count : free_frames m.allocator ≤ free_frames m'.allocator + 2
  pub kept : Kept start owner m owner' m'

module _ (start : ℕ) {owner : ℕ → Option Node} (pt : PageTable) (m : Machine)
    (t : IsTable start owner pt m) (vpn : ℕ) (hp : vpn < 2 ^ 27) where
  Edited-Remapped :
      (value : Option ℕ) (pt' : PageTable) (m' : Machine)
      → Remapped start owner pt m (vpn / 2 ^ 18 % 512) (vpn / 2 ^ 9 % 512) (vpn % 512) value pt' m'
      → Edited start owner pt m vpn value pt' m'
  Edited-Remapped value pt' m' r = record {
    owner' = r.owner';
    table = r.table;
    pages = λ v hv.
        rw
          (
            page_entry-mapped m'.words pt' v,
            page_entry-mapped m.words pt v,
            r.same_root,
            r.pages (v / 2 ^ 18 % 512) (v / 2 ^ 9 % 512) (v % 512),
            same_page v vpn hv hp,
          )
          refl;
    count = r.count;
    kept = r.kept;
  }

  pub map_page-Edited :
      (ppn flags : ℕ)
      → ppn < 2 ^ 44
      → flags < 2 ^ 8
      → Meets
          ((free_frames m.allocator < 2) ⊎ (page_entry m.words pt vpn ≢ none))
          (λ (pt', m').
            (page_entry m.words pt vpn ≡ none)
            × Edited start owner pt m vpn (some (Entry.entry ppn (bit_or flags flag_v))) pt' m')
          (map_page vpn ppn flags pt m)
  map_page-Edited ppn flags hppn hflags = rw (page_entry-mapped m.words pt vpn) (
      Meets-mono _ (map_page vpn ppn flags pt m)
        (map_page-Remapped start pt m t vpn _ _ _ (indexes-digits vpn) ppn flags hppn hflags)
        (λ e. e) (λ (pt', m') (free, r). (free, Edited-Remapped _ pt' m' r)))

  pub unmap_page-Edited :
      Meets
        (page_entry m.words pt vpn ≡ none)
        (λ m'. (page_entry m.words pt vpn ≢ none) × Edited start owner pt m vpn none pt m')
        (unmap_page vpn pt m)
  unmap_page-Edited = rw (page_entry-mapped m.words pt vpn) (
      Meets-mono _ (unmap_page vpn pt m)
        (unmap_page-Remapped start pt m t vpn _ _ _ (indexes-digits vpn)) (λ e. e)
        (λ m' (used, r). (used, Edited-Remapped none pt m' r)))

module _ (start : ℕ) {owner : ℕ → Option Node} (pt : PageTable) (m : Machine)
    (t : IsTable start owner pt m) (vpn v : ℕ) (hv : v < 2 ^ 27) (hp : vpn < 2 ^ 27) where
  -- On a well-formed table, for pages of the address space (below 2^27), a frame number below
  -- 2^44 and flags of eight bits: `map` of a page that has no valid entry gives it the new
  -- entry, marked valid, leaves every other page as it was, and leaves a well-formed table. It
  -- panics only where the page has a valid entry already or fewer than two frames are free.
  pub page_entry-map_page :
      (ppn flags : ℕ)
      → ppn < 2 ^ 44
      → flags < 2 ^ 8
      → Meets
          ((free_frames m.allocator < 2) ⊎ (page_entry m.words pt vpn ≢ none))
          (λ (pt', m').
            (page_entry m.words pt vpn ≡ none)
            × HasEntry start pt m vpn v (some (Entry.entry ppn (bit_or flags flag_v))) pt' m')
          (map_page vpn ppn flags pt m)
  page_entry-map_page ppn flags hppn hflags =
      Meets-mono _ (map_page vpn ppn flags pt m)
        (map_page-Edited start pt m t vpn hp ppn flags hppn hflags) (λ e. e)
        (λ (pt', m') (free, r). (free, ((r.owner', r.table), r.pages v hv)))

  -- On a well-formed table, for pages below 2^27: `unmap` of a page that has a valid entry
  -- removes it, leaves every other page as it was, and leaves a well-formed table. It panics
  -- only where the page has none.
  pub page_entry-unmap_page :
      Meets
        (page_entry m.words pt vpn ≡ none)
        (λ m'. (page_entry m.words pt vpn ≢ none) × HasEntry start pt m vpn v none pt m')
        (unmap_page vpn pt m)
  page_entry-unmap_page =
      Meets-mono _ (unmap_page vpn pt m) (unmap_page-Edited start pt m t vpn hp) (λ e. e)
        (λ m' (used, r). (used, ((r.owner', r.table), r.pages v hv)))

-- `unmap` takes and gives back no frame.
pub unmap_page-allocator :
    (vpn : ℕ) (pt : PageTable) (m : Machine)
    → Meets (Unit {0}) (λ m'. m'.allocator ≡ m.allocator) (unmap_page vpn pt m)
unfolding unmap_page
unmap_page-allocator vpn pt m =
    Meets->>= {E = Unit {0}} {P = λ _. Unit {0}} _ (unwrap (find_pte m.words pt vpn)) _
      (Meets-any (unwrap (find_pte m.words pt vpn))) (λ _. tt)
      (λ (f, i) _.
        Meets->>= {E = Unit {0}} {P = λ _. Unit {0}} _ (assert (Entry.is_valid (m.words f i))) _
          (Meets-any (assert (Entry.is_valid (m.words f i)))) (λ _. tt) (λ _ _. refl))

-- A new table in the frame `f`.
pub record Created (start : ℕ) (m : Machine) (pt : PageTable) (m' : Machine) : Type 0 where
  pub owner' : ℕ → Option Node
  pub table : IsTable start owner' pt m'
  pub empty : (v : ℕ) → page_entry m'.words pt v ≡ none
  pub kept : Kept start (λ q. none) m owner' m'
  pub count : free_frames m.allocator ≡ free_frames m'.allocator + 1

-- With a valid allocator, `new` takes one frame, panics only where none is free, gives a
-- well-formed table that maps no page, and leaves the frames that were handed out as they were.
pub new-Created :
    (start : ℕ) (m : Machine)
    → IsValid start m.allocator
    → Meets (free_frames m.allocator ≡ 0) (λ (pt, m'). Created start m pt m') (new m)
unfolding new
new-Created start m h =
    Meets->>= _ (frame_alloc m) _ (frame_alloc-Fresh start m h) (λ e. e)
      (λ (f, m') r. record {
        owner' = update (λ _. none) f (some top);
        table = record {
          tree = record {
            rooted = ground arith;
            linked =
                λ f' i n c o p valid. ground (arith, ap (λ w. w f' i) r.cleared, is_valid-zero);
          };
          frames_valid = r.frames_valid;
          owned = λ f' n o. ground (arith, r.taken f');
        };
        empty = λ v.
            rw (page_entry-mapped m'.words (record { root_ppn = f; frames = f ∷ [] }) v)
              (ground (arith, is_valid-zero, r.cleared));
        kept = record {
          allocated = λ q a. ground (arith, r.taken q);
          unowned = λ q a o. ground (arith, r.unused);
          same_data = λ q w a o. ground (arith, r.cleared, r.unused);
        };
        count = r.count;
      })
