-- ===== src/Task/Kernel/Process/KernelStack.antt =====
-- `KernelStack::new`: what a new kernel stack leaves in the kernel's address space.
use ch_os.Base.{
  ℕ, ◌*◌, ◌-◌, ◌<◌, ◌^◌, ◌≡◌, ◌≢◌, ◌⊎◌, inl, inr, refl, true, [], ◌∷◌, ◌++◌, Option, none, arith,
  contains, bit_or,
}
use ch_os.Base.Bits.{bit_and-mask}
use ch_os.Base.Outcome.{done, Meets, Meets->>=}
use ch_os.Memory.Address.{virt_addr, virt_floor, virt_ceil, new_range}
use ch_os.Memory.Frames.Laws.{free_frames}
use ch_os.Memory.PageTable.{Machine}
use ch_os.Memory.PageTable.Tree.{Node}
use ch_os.Memory.PageTable.Grow.{IsTable}
use ch_os.Memory.PageTable.Refine.{page_entry}
use ch_os.Memory.MapArea.{MapArea, framed, map_area, perm_r, perm_w}
use ch_os.Memory.MapArea
use ch_os.Memory.MapArea.Filled.{Filled}
use ch_os.Memory.MapArea.Laws.{range_of, map_area-Filled}
use ch_os.Memory.MemorySet.{MemorySet, insert_framed_area, push, fill_area}
use ch_os.Task.Pid.{kernel_stack_position}
use ch_os.Task.Kernel.Stack

-- The two pages of the kernel stack of the process `pid`.
abbrev pub stack_area : ℕ → MapArea
stack_area pid = record {
  vpn_range = record { l = 2 ^ 27 - 3 - 3 * pid; r = 2 ^ 27 - 1 - 3 * pid };
  data_frames = [];
  map_type = framed;
  map_perm = bit_or perm_r perm_w;
}

new-kernel_stack_position :
    (pid : ℕ)
    → pid < 2 ^ 25
    → MapArea.new
        (virt_addr (kernel_stack_position pid).0)
        (virt_addr (kernel_stack_position pid).1)
        framed
        (bit_or perm_r perm_w)
      ≡ done (stack_area pid)
unfolding MapArea.new kernel_stack_position virt_addr virt_floor virt_ceil new_range
new-kernel_stack_position pid h = ground (
  arith,
  bit_and-mask 39 (kernel_stack_position pid).0,
  bit_and-mask 39 (kernel_stack_position pid).1,
)

-- A stack for `pid` is added to the address space `ks`.
pub record Stacked (start : ℕ) (owner : ℕ → Option Node) (pid : ℕ) (ks : MemorySet) (m : Machine)
    (ks' : MemorySet) (m' : Machine) : Type 0 where
  pub area' : MapArea
  pub filled :
      Filled start owner ks.page_table m
        (range_of (stack_area pid))
        (stack_area pid)
        area'
        ks'.page_table
        m'
  pub added : ks'.areas ≡ ks.areas ++ (area' ∷ [])

-- A page of the stack of `pid` has an entry already.
abbrev pub StackTaken : ℕ → MemorySet → Machine → Type 0
StackTaken pid ks m =
    (v : ℕ) × (contains v (range_of (stack_area pid)) ≡ true)
    × (page_entry m.words ks.page_table v ≢ none)

-- `new` for an identifier below 2^25 maps the two pages of the stack in the kernel's address space,
-- and panics only where fewer than six frames are free or one of the pages is mapped already.
pub new-Stacked :
    (start : ℕ) {owner : ℕ → Option Node} (pid : ℕ) (ks : MemorySet) (m : Machine)
    → pid < 2 ^ 25
    → IsTable start owner ks.page_table m
    → Meets
        ((free_frames m.allocator < 6) ⊎ StackTaken pid ks m)
        (λ (ks', m'). Stacked start owner pid ks m ks' m')
        (Stack.new pid ks m)
unfolding Stack.new insert_framed_area push fill_area
new-Stacked start pid ks m h table = rw (new-kernel_stack_position pid h) (
    Meets->>= _ (map_area (stack_area pid) ks.page_table m) _
      (map_area-Filled start ks.page_table m table (stack_area pid) (omega arith, omega arith) refl
        (omega arith))
      (λ e. elim e [ inl few ↦ inl (omega arith) | inr taken ↦ inr taken ])
      (λ (area', pt', m') (free, f). record { area' = area'; filled = f; added = refl }))
