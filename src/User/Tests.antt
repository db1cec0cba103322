-- ===== src/User/Tests.antt =====
-- The loops of the library in a world that is a clock.
use ch_os.Base.{ℕ, zero, suc, ◌+◌, ◌<◌, ◌≡◌, refl, some, arith, ◌==◌, ltb, if◌then◌else◌}
use ch_os.User.Calls.{World, syscall, waitpid, get_time, request}
use ch_os.User.Waiting.{minus_two, wait_for, sleep}
use ch_os.User.Waiting.Laws.{attempt, answer, wait_for-attempt, early_round, reading, sleep-reading}

-- Call 124 lets a millisecond pass, call 169 reads the clock, and a child with the identifier 9 ends
-- at time 3.
abbrev world : World ℕ
world = record {
  ecall = λ id a w.
      if id == 124
      then (0, w + 1)
      else if id == 169
      then (w, w)
      else (if ltb w 3 then minus_two else 9, w);
}

running : (j : ℕ) → j < 2 → answer world j 9 64 1 ≡ minus_two
unfolding syscall request
running zero l = refl
running (suc zero) l = refl
running (suc (suc j)) l = absurd (omega arith)

wait_for-attempt_example :
    wait_for world 5 9 64 1 ≡ some (syscall world (waitpid 9 64) (attempt world 2 9 64 1))
unfolding syscall request
wait_for-attempt_example =
    wait_for-attempt world 2 5 9 64 1 (omega arith) running (λ e. ground arith)

early : (j : ℕ) → j < 6 → reading world j (syscall world get_time 10).1 < 16
unfolding syscall request
early zero l = omega arith
early (suc zero) l = omega arith
early (suc (suc zero)) l = omega arith
early (suc (suc (suc zero))) l = omega arith
early (suc (suc (suc (suc zero)))) l = omega arith
early (suc (suc (suc (suc (suc zero))))) l = omega arith
early (suc (suc (suc (suc (suc (suc j)))))) l = absurd (omega arith)

sleep-reading_example :
    sleep world 7 6 10
    ≡ some (syscall world get_time (early_round world 6 (syscall world get_time 10).1)).1
unfolding syscall request
sleep-reading_example =
    sleep-reading world 6 7 6 10 (omega arith) (omega arith) early (omega arith) (omega arith)
