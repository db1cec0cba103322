-- ===== src/Memory/Address/Range.antt =====
-- A `for` loop over a `SimpleRange` visits its pages once each, in order.
use ch_os.Base.{ℕ, zero, suc, ◌+◌, ◌-◌, ◌^◌, ◌<◌, ◌≡◌, List, [], ◌∷◌, arith}
use ch_os.Base.Outcome.{done}
use ch_os.Memory.Address.{SimpleRange, new_range, step, next, into_iter, visits}

-- The `n` numbers from `a` on.
abbrev pub count_up : ℕ → ℕ → List ℕ
count_up a zero = []
count_up a (suc n) = a ∷ count_up (a + 1) n

pub visits-count_up :
    (n a b : ℕ)
    → a + n ≡ b
    → b < 2 ^ 64
    → visits (suc n) (record { current = a; end = b }) ≡ count_up a n
unfolding visits next step
visits-count_up zero a b e h = ground arith
visits-count_up (suc n) a b e h = ground (arith, visits-count_up n (a + 1) b (omega arith) h)

-- The loop over a range that `new` accepts, with an end below 2^64, visits the pages from the
-- start up to the end, the end excluded, in order, and then stops.
pub visits_lem :
    (start end : ℕ) (s : SimpleRange)
    → end < 2 ^ 64
    → new_range start end ≡ done s
    → visits (suc (end - start)) (into_iter s) ≡ count_up start (end - start)
unfolding new_range into_iter
visits_lem start end s h e = ground (arith, visits-count_up (end - start) start end)
