-- ===== src/User/Waiting/Laws.antt =====
-- When the loops of the library end.
use ch_os.Base.{ℕ, zero, suc, ◌+◌, ◌^◌, ◌<◌, ◌≤◌, ◌≡◌, ◌≢◌, ◌∙◌, true, false, some, arith, ltb}
use ch_os.Base.Bits.{add_usize}
use ch_os.User.Calls.{World, syscall, yield_, get_time, waitpid}
use ch_os.User.Waiting.{minus_two, wait_for, sleep_until, sleep, signed_lt}

module _ {W : Type 0} (world : World W) where
  -- The state after `n` rounds in which the child was still running.
  abbrev pub attempt : ℕ → ℕ → ℕ → W → W
  attempt zero pid exit_code w = w
  attempt (suc n) pid exit_code w =
      attempt n pid exit_code (syscall world yield_ (syscall world (waitpid pid exit_code) w).1).1

  abbrev pub answer : ℕ → ℕ → ℕ → W → ℕ
  answer n pid exit_code w = (syscall world (waitpid pid exit_code) (attempt n pid exit_code w)).0

  wait_for-running :
      (fuel pid exit_code : ℕ) (w : W)
      → answer 0 pid exit_code w ≡ minus_two
      → wait_for world (suc fuel) pid exit_code w
        ≡ wait_for world fuel pid exit_code (attempt 1 pid exit_code w)
  unfolding wait_for
  wait_for-running fuel pid exit_code w e = ground arith

  wait_for-ended :
      (fuel pid exit_code : ℕ) (w : W)
      → answer 0 pid exit_code w ≢ minus_two
      → wait_for world (suc fuel) pid exit_code w ≡ some (syscall world (waitpid pid exit_code) w)
  unfolding wait_for
  wait_for-ended fuel pid exit_code w e = ground arith

  -- Where the kernel answers -2 to the first `n` requests and something else to the next, the
  -- function returns that answer, in the state that the request left: it has given the processor
  -- away exactly once after each of the first `n`. It does so with any fuel above `n`.
  pub wait_for-attempt :
      (n fuel pid exit_code : ℕ) (w : W)
      → n < fuel
      → ((j : ℕ) → j < n → answer j pid exit_code w ≡ minus_two)
      → answer n pid exit_code w ≢ minus_two
      → wait_for world fuel pid exit_code w
        ≡ some (syscall world (waitpid pid exit_code) (attempt n pid exit_code w))
  wait_for-attempt n zero pid exit_code w more running ended = absurd (omega arith)
  wait_for-attempt zero (suc fuel) pid exit_code w more running ended =
      wait_for-ended fuel pid exit_code w ended
  wait_for-attempt (suc n) (suc fuel) pid exit_code w more running ended =
      wait_for-running fuel pid exit_code w (running 0 (omega arith))
      ∙ wait_for-attempt n fuel pid exit_code (attempt 1 pid exit_code w) (omega arith)
          (λ j l. running (suc j) (omega arith)) ended

signed_lt-small : (a b : ℕ) → a < 2 ^ 63 → b < 2 ^ 63 → signed_lt a b ≡ ltb a b
signed_lt-small a b ha hb = ground arith

module _ {W : Type 0} (world : World W) where
  -- The state after `n` rounds of `sleep` that were too early, and the time that is read there.
  abbrev pub early_round : ℕ → W → W
  early_round zero w = w
  early_round (suc n) w = early_round n (syscall world yield_ (syscall world get_time w).1).1

  abbrev pub reading : ℕ → W → ℕ
  reading n w = (syscall world get_time (early_round n w)).0

  sleep_until-early :
      (fuel target : ℕ) (w : W)
      → signed_lt (reading 0 w) target ≡ true
      → sleep_until world (suc fuel) target w ≡ sleep_until world fuel target (early_round 1 w)
  unfolding sleep_until
  sleep_until-early fuel target w e = ground (arith, e)

  sleep_until-late :
      (fuel target : ℕ) (w : W)
      → signed_lt (reading 0 w) target ≡ false
      → sleep_until world (suc fuel) target w ≡ some (syscall world get_time w).1
  unfolding sleep_until
  sleep_until-late fuel target w e = ground (arith, e)

  sleep_until-reading :
      (n fuel target : ℕ) (w : W)
      → target < 2 ^ 63
      → n < fuel
      → ((j : ℕ) → j < n → reading j w < target)
      → target ≤ reading n w
      → reading n w < 2 ^ 63
      → sleep_until world fuel target w ≡ some (syscall world get_time (early_round n w)).1
  sleep_until-reading n zero target w small more early late clock = absurd (omega arith)
  sleep_until-reading zero (suc fuel) target w small more early late clock =
      sleep_until-late fuel target w
        (signed_lt-small (reading 0 w) target clock small ∙ ground arith)
  sleep_until-reading (suc n) (suc fuel) target w small more early late clock =
      let first = early 0 (omega arith) in
      sleep_until-early fuel target w
        (signed_lt-small (reading 0 w) target (omega arith) small ∙ ground arith)
      ∙ sleep_until-reading n fuel target (early_round 1 w) small (omega arith)
          (λ j l. early (suc j) (omega arith)) late clock

  -- `sleep` reads the time at which it starts. Where the next `n` readings are before the end of
  -- the period and the one after them is not, and the times stay below 2^63, it returns right
  -- after that reading, so not before the period is over, and has given the processor away exactly
  -- once after each of the `n` earlier ones. It does so with any fuel above `n`.
  pub sleep-reading :
      (n fuel period_ms : ℕ) (w : W)
      → (syscall world get_time w).0 + period_ms < 2 ^ 63
      → n < fuel
      → ((j : ℕ)
          → j < n
          → reading j (syscall world get_time w).1 < (syscall world get_time w).0 + period_ms)
      → (syscall world get_time w).0 + period_ms ≤ reading n (syscall world get_time w).1
      → reading n (syscall world get_time w).1 < 2 ^ 63
      → sleep world fuel period_ms w
        ≡ some (syscall world get_time (early_round n (syscall world get_time w).1)).1
  unfolding sleep
  sleep-reading n fuel period_ms w small more early late clock =
      let start = (syscall world get_time w).0 in
      let target : add_usize start period_ms ≡ start + period_ms = omega arith in
      rw target (
        sleep_until-reading n fuel (start + period_ms) (syscall world get_time w).1 small more early
          late clock)
