-- ===== src/Task/Kernel/Stack.antt =====
-- os/src/task/pid.rs, `KernelStack`: made and dropped in the kernel's address space.
use ch_os.Base.{ℕ, bit_or}
use ch_os.Base.Outcome.{Outcome, ◌>>=◌}
use ch_os.Memory.Address.{virt_addr, virt_to_page}
use ch_os.Memory.PageTable.{Machine}
use ch_os.Memory.MapArea.{perm_r, perm_w}
use ch_os.Memory.MemorySet.{MemorySet, insert_framed_area, remove_area_with_start_vpn}
use ch_os.Task.Pid.{kernel_stack_position}

unfoldable pub new : ℕ → MemorySet → Machine → Outcome (MemorySet × Machine)
new pid kernel_space m =
    let (bottom, top) = kernel_stack_position pid in
    insert_framed_area kernel_space (virt_addr bottom) (virt_addr top) (bit_or perm_r perm_w) m

pub get_top : ℕ → ℕ
get_top pid = (kernel_stack_position pid).1

unfoldable pub drop : ℕ → MemorySet → Machine → Outcome (MemorySet × Machine)
drop pid kernel_space m = do
  let (bottom, top) = kernel_stack_position pid
  vpn ← virt_to_page (virt_addr bottom)
  remove_area_with_start_vpn kernel_space vpn m
