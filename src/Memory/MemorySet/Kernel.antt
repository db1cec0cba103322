-- ===== src/Memory/MemorySet/Kernel.antt =====
-- os/src/memory/memory_set.rs, `MemorySet::new_kernel` and `remap_test`: the address space of the
-- kernel. What the linker script and the board give is a parameter: `Symbols` and the list of
-- ranges `MMIO` of os/src/boards.
use ch_os.Base.{ℕ, ◌/◌, not, List, [], ◌∷◌, none, bit_or}
use ch_os.Base.Bits.{add_usize}
use ch_os.Base.Outcome.{Outcome, done, assert, unwrap, ◌>>=◌, ◌>>◌}
use ch_os.Memory.Address.{virt_addr, virt_floor}
use ch_os.Memory.Entry.{writable, executable}
use ch_os.Memory.PageTable.{Machine}
use ch_os.Memory.MapArea.{identical, perm_r, perm_w, perm_x}
use ch_os.Memory.MapArea
use ch_os.Memory.MemorySet.{MemorySet, new_bare, map_trampoline, push, translate, memory_end}

pub record Symbols : Type 0 where
  pub stext : ℕ
  pub etext : ℕ
  pub srodata : ℕ
  pub erodata : ℕ
  pub sdata : ℕ
  pub edata : ℕ
  pub sbss_with_stack : ℕ
  pub ebss : ℕ
  pub ekernel : ℕ
  pub strampoline : ℕ

-- One section: `push` of an identical area, without data.
unfoldable pub push_identical : MemorySet → ℕ → ℕ → ℕ → Machine → Outcome (MemorySet × Machine)
push_identical ms start_va end_va perm m = do
  area ← MapArea.new (virt_addr start_va) (virt_addr end_va) identical perm
  push ms area none m

unfoldable pub push_registers : List (ℕ × ℕ) → MemorySet → Machine → Outcome (MemorySet × Machine)
push_registers [] ms m = done (ms, m)
push_registers ((start, len) ∷ rest) ms m = do
  (ms', m') ← push_identical ms start (add_usize start len) (bit_or perm_r perm_w) m
  push_registers rest ms' m'

unfoldable pub new_kernel : Symbols → List (ℕ × ℕ) → Machine → Outcome (MemorySet × Machine)
new_kernel s mmio m = do
  (ms₀, m₀) ← new_bare m
  (ms₁, m₁) ← map_trampoline s.strampoline ms₀ m₀
  (ms₂, m₂) ← push_identical ms₁ s.stext s.etext (bit_or perm_r perm_x) m₁
  (ms₃, m₃) ← push_identical ms₂ s.srodata s.erodata perm_r m₂
  (ms₄, m₄) ← push_identical ms₃ s.sdata s.edata (bit_or perm_r perm_w) m₃
  (ms₅, m₅) ← push_identical ms₄ s.sbss_with_stack s.ebss (bit_or perm_r perm_w) m₄
  (ms₆, m₆) ← push_identical ms₅ s.ekernel memory_end (bit_or perm_r perm_w) m₅
  push_registers mmio ms₆ m₆

-- The entry of the page in the middle of a section.
unfoldable pub middle_entry : MemorySet → ℕ → ℕ → Machine → Outcome ℕ
middle_entry ms start end m =
    unwrap (translate ms (virt_floor (virt_addr (add_usize start end / 2))) m)

unfoldable pub remap_test : Symbols → MemorySet → Machine → Outcome (Unit {0})
remap_test s ms m = do
  text ← middle_entry ms s.stext s.etext m
  assert (not (writable text))
  rodata ← middle_entry ms s.srodata s.erodata m
  assert (not (writable rodata))
  bytes ← middle_entry ms s.sdata s.edata m
  assert (not (executable bytes))
