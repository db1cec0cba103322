-- ===== src/Memory/Tests.antt =====
-- Runs of the memory model at concrete states.
use ch_os.Base.{
  ℕ, ◌+◌, ◌*◌, ◌<◌, ◌≤◌, ◌≡◌, ◌≢◌, ◌⊎◌, refl, false, ◌&&◌, ◌||◌, [], ◌∷◌, Option, none, some, arith,
  ◌==◌, update, bit_or, if◌then◌else◌,
}
use ch_os.Base.Outcome.{done, Meets, ◌>>=◌}
use ch_os.Memory.UserBuffer.{
  translated_byte_buffer, places, byte_places, translated_byte_buffer-byte_places,
}
use ch_os.Memory.Address
use ch_os.Memory.Address.{
  page_size, page_to_virt, virt_floor, virt_ceil, virt_offset, indexes, new_range, into_iter,
  visits, SimpleRange, virt_to_page,
}
use ch_os.Memory.Entry
use ch_os.Memory.Entry.{flag_v, is_valid-zero}
use ch_os.Memory.Frames.{StackFrameAllocator, alloc}
use ch_os.Memory.Frames.Laws.{IsValid, is_allocated, free_frames, alloc-some}
use ch_os.Memory.PageTable.{Machine, PageTable, map_page, unmap_page}
use ch_os.Memory.PageTable
use ch_os.Memory.PageTable.Tree.{Node, top, mid, leaf}
use ch_os.Memory.PageTable.Grow.{IsTable}
use ch_os.Memory.PageTable.Refine.{page_entry}
use ch_os.Memory.PageTable.Map.{HasEntry, page_entry-map_page, page_entry-unmap_page}

-- Frames 10 to 99, of which 11 and 12 are handed out.
abbrev frames : StackFrameAllocator
frames = record { current = 13; end = 100; recycled = 10 ∷ [] }

frames-IsValid : IsValid 10 frames
frames-IsValid = ground arith

alloc-frames : alloc frames ≡ (some 10, record frames { recycled = [] })
unfolding alloc Address.phys_page_num
alloc-frames = refl

alloc-some_example :
    IsValid 10 (record frames { recycled = [] })
    × (10 ≤ 10)
    × (10 < 100)
    × (is_allocated 10 frames 10 ≡ false)
    × (is_allocated 10 (record frames { recycled = [] }) 11
        ≡ (10 == 11) || is_allocated 10 frames 11)
    × (free_frames frames ≡ free_frames (record frames { recycled = [] }) + 1)
alloc-some_example = alloc-some 10 frames-IsValid 10 11 alloc-frames

new_5_8 : new_range 5 8 ≡ done (record { l = 5; r = 8 })
unfolding new_range
new_5_8 = refl

-- A table that maps page 5 to frame 30, in the frames 10, 11 and 12.
abbrev words : ℕ → ℕ → ℕ
words p i =
    if (p == 10) && (i == 0)
    then 11 * 1024 + 1
    else if (p == 11) && (i == 0)
    then 12 * 1024 + 1
    else if (p == 12) && (i == 5)
    then 30 * 1024 + 7
    else 0

abbrev machine : Machine
machine = record { words = words; allocator = record { current = 13; end = 100; recycled = [] } }

abbrev table : PageTable
table = record { root_ppn = 10; frames = 12 ∷ 11 ∷ 10 ∷ [] }

abbrev owner : ℕ → Option Node
owner = update (update (update (λ p. none) 10 (some top)) 11 (some (mid 0))) 12 (some (leaf 0 0))

links : (Entry.ppn (11 * 1024 + 1) ≡ 11) × (Entry.ppn (12 * 1024 + 1) ≡ 12)
unfolding Entry.ppn Address.phys_page_num
links = (refl, refl)

table-IsTable : IsTable 10 owner table machine
table-IsTable = record {
  tree = record {
    rooted = refl;
    linked = λ f i n c o p valid. ground (arith, is_valid-zero, links.0, links.1);
  };
  frames_valid = ground arith;
  owned = λ f n o. ground arith;
}

page_5 : page_entry words table 5 ≡ some (30 * 1024 + 7)
unfolding PageTable.translate Entry.ppn Entry.is_valid Entry.flags Address.phys_page_num
    Address.indexes_from PageTable.find_pte PageTable.find_from Address.indexes
page_5 = refl

page_entry-map_page_example :
    Meets
      ((free_frames machine.allocator < 2) ⊎ (page_entry machine.words table 6 ≢ none))
      (λ (pt', m').
        (page_entry machine.words table 6 ≡ none)
        × HasEntry 10 table machine 6 5 (some (Entry.entry 20 (bit_or 6 flag_v))) pt' m')
      (map_page 6 20 6 table machine)
page_entry-map_page_example =
    page_entry-map_page 10 table machine table-IsTable 6 5 (omega arith) (omega arith) 20 6
      (omega arith) (omega arith)

page_entry-unmap_page_example :
    Meets
      (page_entry machine.words table 5 ≡ none)
      (λ m'.
        (page_entry machine.words table 5 ≢ none) × HasEntry 10 table machine 5 7 none table m')
      (unmap_page 5 table machine)
page_entry-unmap_page_example =
    page_entry-unmap_page 10 table machine table-IsTable 5 7 (omega arith) (omega arith)

-- A buffer of three bytes in page 5.
translated_byte_buffer-byte_places_example :
    (translated_byte_buffer words table (5 * 4096 + 10) 3 >>= λ ss. done (places ss))
    ≡ byte_places words table (5 * 4096 + 10) 3
translated_byte_buffer-byte_places_example =
    translated_byte_buffer-byte_places words table (5 * 4096 + 10) 3 (omega arith)
