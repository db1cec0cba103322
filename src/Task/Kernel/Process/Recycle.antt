-- ===== src/Task/Kernel/Process/Recycle.antt =====
-- What the end of a process gives back: `recycle_data_pages` of os/src/memory/memory_set.rs and the
-- drop of an address space.
use ch_os.Base.{
  ℕ, ◌+◌, ◌≡◌, refl, ◌∙◌, true, false, ◌&&◌, ◌||◌, not, List, [], ◌∷◌, ◌++◌, some, arith, contains,
  Distinct, length,
}
use ch_os.Base.Outcome.{Outcome, done, ◌>>=◌}
use ch_os.Memory.Frames.Laws.{IsValid, is_allocated, free_frames, dealloc-allocated}
use ch_os.Memory.PageTable.{Machine}
use ch_os.Memory.MapArea.{MapArea, drop_frame}
use ch_os.Memory.MemorySet.{MemorySet, drop_frames, drop_areas, recycle_data_pages}
use ch_os.Task.Kernel.Process.{drop_nodes, drop_memory_set}

abbrev data_of : List (ℕ × ℕ) → List ℕ
data_of [] = []
data_of ((v, f) ∷ rest) = f ∷ data_of rest

-- The frames of all areas, in the order in which they are dropped.
abbrev pub data_of_areas : List MapArea → List ℕ
data_of_areas [] = []
data_of_areas (area ∷ rest) = data_of area.data_frames ++ data_of_areas rest

-- The frames of a table in the order in which they are dropped.
abbrev pub last_first : List ℕ → List ℕ
last_first [] = []
last_first (f ∷ rest) = last_first rest ++ (f ∷ [])

-- The frames `fs` are handed out, each once.
pub record CanReturn (start : ℕ) (fs : List ℕ) (m : Machine) : Type 0 where
  pub valid : IsValid start m.allocator
  pub distinct : Distinct fs
  pub allocated : (q : ℕ) → contains q fs ≡ true → is_allocated start m.allocator q ≡ true

-- Just the frames `fs` have been given back.
pub record Returned (start : ℕ) (fs : List ℕ) (m m' : Machine) : Type 0 where
  pub valid : IsValid start m'.allocator
  pub freed :
      (q : ℕ)
      → is_allocated start m'.allocator q
        ≡ (not (contains q fs) && is_allocated start m.allocator q)
  pub count : free_frames m'.allocator ≡ free_frames m.allocator + length fs
  pub same_words : m'.words ≡ m.words

contains-++ : (q : ℕ) (fs gs : List ℕ) → contains q (fs ++ gs) ≡ contains q fs || contains q gs
contains-++ q [] gs = refl
contains-++ q (f ∷ fs) gs = ground (arith, contains-++ q fs gs)

length-++ : (fs gs : List ℕ) → length (fs ++ gs) ≡ length fs + length gs
length-++ [] gs = omega arith
length-++ (f ∷ fs) gs = omega (arith, length-++ fs gs)

Distinct-++ :
    (fs gs : List ℕ)
    → Distinct (fs ++ gs)
    → Distinct fs × Distinct gs × ((q : ℕ) → contains q fs ≡ true → contains q gs ≡ false)
Distinct-++ [] gs d = (tt, d, λ q h. cc h)
Distinct-++ (f ∷ fs) gs (n, d) =
    let (first, later, apart) = Distinct-++ fs gs d in
    let both = contains-++ f fs gs in ((ground arith, first), later, λ q h. ground (arith, apart q))

module _ (start : ℕ) where
  Returned-[] : (m : Machine) → IsValid start m.allocator → Returned start [] m m
  Returned-[] m v = record {
    valid = v;
    freed = λ q. ground arith;
    count = omega arith;
    same_words = refl;
  }

  Returned-++ :
      (fs gs : List ℕ) (m m₁ m₂ : Machine)
      → Returned start fs m m₁
      → Returned start gs m₁ m₂
      → Returned start (fs ++ gs) m m₂
  Returned-++ fs gs m m₁ m₂ r s = record {
    valid = s.valid;
    freed = λ q. ground (arith, s.freed q, r.freed q, contains-++ q fs gs);
    count = omega (arith, s.count, r.count, length-++ fs gs);
    same_words = s.same_words ∙ r.same_words;
  }

  CanReturn-first :
      (fs gs : List ℕ) (m : Machine) → CanReturn start (fs ++ gs) m → CanReturn start fs m
  CanReturn-first fs gs m c = record {
    valid = c.valid;
    distinct = (Distinct-++ fs gs c.distinct).0;
    allocated = λ q h. ground (arith, c.allocated q, contains-++ q fs gs);
  }

  CanReturn-later :
      (fs gs : List ℕ) (m m₁ : Machine)
      → CanReturn start (fs ++ gs) m
      → Returned start fs m m₁
      → CanReturn start gs m₁
  CanReturn-later fs gs m m₁ c r =
      let (d, d', apart) = Distinct-++ fs gs c.distinct in
      record {
        valid = r.valid;
        distinct = d';
        allocated = λ q h. ground (arith, c.allocated q, contains-++ q fs gs, r.freed q, apart q);
      }

  drop_frame-Returned :
      (f : ℕ) (m : Machine)
      → CanReturn start (f ∷ []) m
      → (m' : Machine) × (drop_frame (some f) m ≡ done m') × Returned start (f ∷ []) m m'
  unfolding drop_frame
  drop_frame-Returned f m c =
      let (a, e, valid, back, count) =
        dealloc-allocated start c.valid f (c.allocated f (ground arith)) in
      (
        record m { allocator = a },
        rw e refl,
        record {
          valid = valid;
          freed = λ q. ground (arith, back q);
          count = omega (arith, count);
          same_words = refl;
        },
      )

  -- Two steps that give back frames, one after the other.
  then-Returned :
      (f g : Machine → Outcome Machine) (fs gs : List ℕ) (m : Machine)
      → CanReturn start (fs ++ gs) m
      → (CanReturn start fs m → (m' : Machine) × (f m ≡ done m') × Returned start fs m m')
      → ((m₁ : Machine)
          → CanReturn start gs m₁
          → (m' : Machine) × (g m₁ ≡ done m') × Returned start gs m₁ m')
      → (m' : Machine) × ((f m >>= g) ≡ done m') × Returned start (fs ++ gs) m m'
  then-Returned f g fs gs m c first later =
      let (m₁, e₁, r₁) = first (CanReturn-first fs gs m c) in
      let (m₂, e₂, r₂) = later m₁ (CanReturn-later fs gs m m₁ c r₁) in
      (m₂, rw (e₁, e₂) refl, Returned-++ fs gs m m₁ m₂ r₁ r₂)

  drop_frames-Returned :
      (frames : List (ℕ × ℕ)) (m : Machine)
      → CanReturn start (data_of frames) m
      → (m' : Machine) × (drop_frames frames m ≡ done m') × Returned start (data_of frames) m m'
  unfolding drop_frames
  drop_frames-Returned [] m c = (m, refl, Returned-[] m c.valid)
  drop_frames-Returned ((v, f) ∷ rest) m c =
      then-Returned (drop_frame (some f)) (drop_frames rest) (f ∷ []) (data_of rest) m c
        (drop_frame-Returned f m) (drop_frames-Returned rest)

  drop_areas-Returned :
      (areas : List MapArea) (m : Machine)
      → CanReturn start (data_of_areas areas) m
      → (m' : Machine) × (drop_areas areas m ≡ done m') × Returned start (data_of_areas areas) m m'
  unfolding drop_areas
  drop_areas-Returned [] m c = (m, refl, Returned-[] m c.valid)
  drop_areas-Returned (area ∷ rest) m c =
      then-Returned (drop_frames area.data_frames) (drop_areas rest) (data_of area.data_frames)
        (data_of_areas rest) m c (drop_frames-Returned area.data_frames m)
        (drop_areas-Returned rest)

  drop_nodes-Returned :
      (nodes : List ℕ) (m : Machine)
      → CanReturn start (last_first nodes) m
      → (m' : Machine) × (drop_nodes nodes m ≡ done m') × Returned start (last_first nodes) m m'
  unfolding drop_nodes
  drop_nodes-Returned [] m c = (m, refl, Returned-[] m c.valid)
  drop_nodes-Returned (f ∷ rest) m c =
      then-Returned (drop_nodes rest) (drop_frame (some f)) (last_first rest) (f ∷ []) m c
        (drop_nodes-Returned rest m) (drop_frame-Returned f)

-- An address space whose frames, those of its areas and those of its table, are handed out and
-- different from each other is given back in two steps: `recycle_data_pages` when the process ends,
-- and the drop of what is left when its parent has waited for it. Neither panics, and together they
-- return each of those frames once and no other, and change no word of the memory.
pub drop_memory_set-recycle_data_pages :
    (start : ℕ) (ms : MemorySet) (m : Machine)
    → CanReturn start (data_of_areas ms.areas ++ last_first ms.page_table.frames) m
    → (ms' : MemorySet) × (m' : Machine) × (m'' : Machine) × (recycle_data_pages ms m
        ≡ done (ms', m'))
      × (drop_memory_set ms' m' ≡ done m'')
      × (ms'.areas ≡ [])
      × Returned start (data_of_areas ms.areas) m m'
      × Returned start (data_of_areas ms.areas ++ last_first ms.page_table.frames) m m''
unfolding recycle_data_pages drop_memory_set drop_areas
drop_memory_set-recycle_data_pages start ms m c =
    let held = data_of_areas ms.areas in
    let nodes = last_first ms.page_table.frames in
    let (m', e, r) = drop_areas-Returned start ms.areas m (CanReturn-first start held nodes m c) in
    let (m'', e', r') =
      drop_nodes-Returned start ms.page_table.frames m'
        (CanReturn-later start held nodes m m' c r) in
    (
      record ms { areas = [] },
      m',
      m'',
      rw e refl,
      rw e' refl,
      refl,
      r,
      Returned-++ start held nodes m m' m'' r r',
    )
