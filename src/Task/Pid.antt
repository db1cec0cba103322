-- ===== src/Task/Pid.antt =====
-- os/src/task/pid.rs: process identifiers, and where a kernel stack lies.
pub mod Laws
use ch_os.Base.{ℕ, ◌+◌, ◌-◌, ◌*◌, ◌%◌, ◌^◌, List, [], ◌∷◌, contains, ltb, not}
use ch_os.Base.Bits.{add_usize, sub_usize}
use ch_os.Base.Outcome.{Outcome, done, panic, assert, ◌>>=◌, ◌>>◌}

-- The head of `recycled` is the top of the stack.
pub record PidAllocator : Type 0 where
  pub current : ℕ
  pub recycled : List ℕ

pub new : PidAllocator
new = record { current = 0; recycled = [] }

-- A `PidHandle` is its number.
unfoldable pub alloc : PidAllocator → ℕ × PidAllocator
alloc s = elim s.recycled [
  | pid ∷ rest ↦ (pid, record s { recycled = rest })
  | [] ↦
      let current' = add_usize s.current 1 in
      (sub_usize current' 1, record s { current = current' })
]

pub dealloc : PidAllocator → ℕ → Outcome PidAllocator
dealloc s pid = do
  assert (ltb pid s.current)
  assert (not (contains pid s.recycled))
  done (record s { recycled = pid ∷ s.recycled })

-- os/src/config.rs
abbrev pub page_size : ℕ
page_size = 4096

abbrev pub kernel_stack_size : ℕ
kernel_stack_size = 8192

abbrev pub trampoline : ℕ
trampoline = 2 ^ 64 - page_size

abbrev mul_usize : ℕ → ℕ → ℕ
mul_usize a b = a * b % 2 ^ 64

-- (bottom, top)
unfoldable pub kernel_stack_position : ℕ → ℕ × ℕ
kernel_stack_position app_id =
    let top = sub_usize trampoline (mul_usize app_id (kernel_stack_size + page_size)) in
    (sub_usize top kernel_stack_size, top)
