-- ===== src/Memory/MemorySet/Elf.antt =====
-- os/src/memory/memory_set.rs, `MemorySet::from_elf`: the address space of a program. What the
-- crate `xmas_elf` reads from a file is a parameter: `parse`.
use ch_os.Base.{
  ℕ, zero, suc, ◌+◌, ◌-◌, Bool, false, ◌&&◌, List, [], ◌∷◌, Option, none, some, bit_or,
  if◌then◌else◌, leb, ◌==◌,
}
use ch_os.Base.Bits.{add_usize}
use ch_os.Base.Outcome.{Outcome, done, assert, unwrap, ◌>>=◌, ◌>>◌}
use ch_os.Memory.Address.{virt_addr, page_to_virt, page_size}
use ch_os.Memory.PageTable.{Machine}
use ch_os.Memory.MapArea.{MapArea, framed, Slice, perm_r, perm_w, perm_x, perm_u}
use ch_os.Memory.MapArea
use ch_os.Memory.MemorySet.{
  MemorySet, new_bare, map_trampoline, push, trampoline, trap_context, user_stack_size,
}

-- What the code reads of a program header: its type, if it has one that is known, as the test for
-- `Load`, and its fields.
pub record ProgramHeader : Type 0 where
  pub load : Option Bool
  pub virtual_addr : ℕ
  pub mem_size : ℕ
  pub offset : ℕ
  pub file_size : ℕ
  pub is_read : Bool
  pub is_write : Bool
  pub is_execute : Bool

pub record ElfFile : Type 0 where
  pub magic : List ℕ
  pub ph_count : ℕ
  pub program_header : ℕ → Option ProgramHeader
  pub entry_point : ℕ

-- `U`, and what the flags of the header add.
unfoldable pub header_perm : ProgramHeader → ℕ
header_perm ph =
    let r = bit_or perm_u (if ph.is_read then perm_r else 0) in
    let w = bit_or r (if ph.is_write then perm_w else 0) in
    bit_or w (if ph.is_execute then perm_x else 0)

-- `&elf.input[from..to]`
unfoldable pub sub_slice : Slice → ℕ → ℕ → Outcome Slice
sub_slice input from to = do
  assert (leb from to && leb to input.len)
  done (record { len = to - from; byte = λ i. input.byte (from + i) })

-- One header that is to be loaded; the end of its area comes with the result.
unfoldable pub load_header :
    Slice → ProgramHeader → MemorySet → Machine → Outcome (ℕ × MemorySet × Machine)
load_header input ph ms m = do
  let start_va = virt_addr ph.virtual_addr
  let end_va = virt_addr (add_usize ph.virtual_addr ph.mem_size)
  area ← MapArea.new start_va end_va framed (header_perm ph)
  part ← sub_slice input ph.offset (add_usize ph.offset ph.file_size)
  (ms', m') ← push ms area (some part) m
  done (area.vpn_range.r, ms', m')

-- The loop over the headers from `i` on, `left` of them.
unfoldable pub load_headers :
    ℕ → Slice → ElfFile → ℕ → ℕ → MemorySet → Machine → Outcome (ℕ × MemorySet × Machine)
load_headers zero input elf i max_end_vpn ms m = done (max_end_vpn, ms, m)
load_headers (suc left) input elf i max_end_vpn ms m = do
  ph ← unwrap (elf.program_header i)
  load ← unwrap ph.load
  let loaded = load_header input ph ms m
  (end_vpn, ms', m') ← if load then loaded else done (max_end_vpn, ms, m)
  load_headers left input elf (i + 1) end_vpn ms' m'

is_magic : List ℕ → Bool
is_magic (a ∷ b ∷ c ∷ d ∷ []) = (a == 0x7f) && (b == 0x45) && (c == 0x4c) && (d == 0x46)
is_magic _ = false

-- The stack of the user above a page that is left out, and the page of the trap context.
unfoldable pub push_stack : ℕ → MemorySet → Machine → Outcome (ℕ × MemorySet × Machine)
push_stack max_end_vpn ms m = do
  let bottom = add_usize (page_to_virt max_end_vpn) page_size
  let top = add_usize bottom user_stack_size
  area ←
      MapArea.new (virt_addr bottom) (virt_addr top) framed (bit_or (bit_or perm_r perm_w) perm_u)
  (ms', m') ← push ms area none m
  done (top, ms', m')

unfoldable pub push_trap_context : MemorySet → Machine → Outcome (MemorySet × Machine)
push_trap_context ms m = do
  area ← MapArea.new (virt_addr trap_context) (virt_addr trampoline) framed (bit_or perm_r perm_w)
  push ms area none m

-- The address space, the top of the user's stack and the entry point.
pub from_elf :
    (Slice → Option ElfFile) → ℕ → Slice → Machine → Outcome (MemorySet × ℕ × ℕ × Machine)
from_elf parse strampoline input m = do
  (ms₀, m₀) ← new_bare m
  (ms₁, m₁) ← map_trampoline strampoline ms₀ m₀
  elf ← unwrap (parse input)
  assert (is_magic elf.magic)
  (max_end_vpn, ms₂, m₂) ← load_headers elf.ph_count input elf 0 0 ms₁ m₁
  (user_stack_top, ms₃, m₃) ← push_stack max_end_vpn ms₂ m₂
  (ms₄, m₄) ← push_trap_context ms₃ m₃
  done (ms₄, user_stack_top, elf.entry_point, m₄)
