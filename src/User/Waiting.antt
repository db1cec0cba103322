-- ===== src/User/Waiting.antt =====
-- user/src/lib.rs: the loops of `wait`, `waitpid` and `sleep`. They may never end; `none` is a loop
-- that has not ended after the rounds of its fuel.
pub mod Laws
use ch_os.Base.{
  ℕ, zero, suc, ◌+◌, ◌-◌, ◌^◌, ◌%◌, Bool, true, false, Option, none, some, ◌==◌, ltb, if◌then◌else◌,
}
use ch_os.Base.Bits.{add_usize}
use ch_os.User.Calls.{World, syscall, yield_, get_time, waitpid}

-- -2 and -1 of `isize`.
abbrev pub minus_two : ℕ
minus_two = 2 ^ 64 - 2

abbrev pub minus_one : ℕ
minus_one = 2 ^ 64 - 1

-- `a < b` of two `isize`.
abbrev pub signed_lt : ℕ → ℕ → Bool
signed_lt a b = ltb (add_usize a (2 ^ 63)) (add_usize b (2 ^ 63))

module _ {W : Type 0} (world : World W) where
  -- The function `waitpid`; `exit_code` is the address of the variable.
  unfoldable pub wait_for : ℕ → ℕ → ℕ → W → Option (ℕ × W)
  wait_for zero pid exit_code w = none
  wait_for (suc fuel) pid exit_code w =
      let (result, w₁) = syscall world (waitpid pid exit_code) w in
      elim (result == minus_two) [
        | true ↦ wait_for fuel pid exit_code (syscall world yield_ w₁).1
        | false ↦ some (result, w₁)
      ]

  unfoldable pub wait : ℕ → ℕ → W → Option (ℕ × W)
  wait fuel exit_code w = wait_for fuel minus_one exit_code w

  -- The loop of `sleep`, until the time `target`.
  unfoldable pub sleep_until : ℕ → ℕ → W → Option W
  sleep_until zero target w = none
  sleep_until (suc fuel) target w =
      let (now, w₁) = syscall world get_time w in
      elim (signed_lt now target) [
        | true ↦ sleep_until fuel target (syscall world yield_ w₁).1
        | false ↦ some w₁
      ]

  unfoldable pub sleep : ℕ → ℕ → W → Option W
  sleep fuel period_ms w =
      let (start, w₁) = syscall world get_time w in sleep_until fuel (add_usize start period_ms) w₁
