-- ===== src/Base/Check.antt =====
-- A test that holds at each number below a bound, found by running it there.
use vorsprung_logger.Base.{ℕ, zero, suc, ◌<◌, ◌≡◌, Bool, true, ◌&&◌, arith}

unfoldable pub checks : (ℕ → Bool) → ℕ → Bool
checks test zero = true
checks test (suc top) = test top && checks test top

pub checks_lem :
    (test : ℕ → Bool) (bound k : ℕ) → k < bound → checks test bound ≡ true → test k ≡ true
unfolding checks
checks_lem test zero k below passed = absurd (omega arith)
checks_lem test (suc top) k below passed = ground (arith, checks_lem test top k)
