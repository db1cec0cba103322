-- ===== src/User/Calls.antt =====
-- user/src/syscall.rs: how a program asks the kernel. A call is its number and three arguments, in
-- the registers 17 and 10 to 12.
pub mod Dispatch
use ch_os.Base.{ℕ, ◌+◌, ◌-◌, ◌^◌, ◌%◌, Bool, true, false, ltb, if◌then◌else◌}
use ch_os.Task.Kernel.Trap.{Args}

-- The functions of the file with their arguments; a string or a buffer is its address, with its
-- length where that is passed.
pub data Call : Type 0 where
  open_ : ℕ → ℕ → Call
  close : ℕ → Call
  read write : ℕ → ℕ → ℕ → Call
  exit : ℕ → Call
  yield_ get_time getpid fork : Call
  exec : ℕ → Call
  waitpid : ℕ → ℕ → Call

abbrev args : ℕ → ℕ → ℕ → Args
args a0 a1 a2 = record { a0 = a0; a1 = a1; a2 = a2 }

-- `exit_code as usize` of an `i32`.
abbrev pub sign_extend : ℕ → ℕ
sign_extend code = if ltb code (2 ^ 31) then code else code + 2 ^ 64 - 2 ^ 32

-- What the functions pass to `syscall`.
unfoldable pub request : Call → ℕ × Args
request (open_ path flags) = (56, args path flags 0)
request (close fd) = (57, args fd 0 0)
request (read fd buffer len) = (63, args fd buffer len)
request (write fd buffer len) = (64, args fd buffer len)
request (exit code) = (93, args (sign_extend code) 0 0)
request yield_ = (124, args 0 0 0)
request get_time = (169, args 0 0 0)
request getpid = (172, args 0 0 0)
request fork = (220, args 0 0 0)
request (exec path) = (221, args path 0 0)
request (waitpid pid exit_code) = (260, args pid exit_code 0)

-- The machine as a program sees it: a call comes back with a result.
pub record World (W : Type 0) : Type 0 where
  pub ecall : ℕ → Args → W → ℕ × W

unfoldable pub syscall : {W : Type 0} → World W → Call → W → ℕ × W
unfolding request
syscall world c w = let (id, a) = request c in world.ecall id a w
