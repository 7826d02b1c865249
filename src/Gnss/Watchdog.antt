-- ===== src/Gnss/Watchdog.antt =====
-- When the watchdog of the receiver (src/main.cpp) cuts its power.
use vorsprung_logger.Base.{ℕ, zero, suc, ◌≡◌, Bool, false, ltb, List, [], ◌∷◌, ◌++◌}
use vorsprung_logger.Gnss.{Receiver, Gnss, watch}

-- The shutdowns that `log` knows of, the latest first: only `gps_end` adds one.
pub record IsLog (r : Receiver) (log : r.Sys → List Bool) : Type 0 where
  pub ended : (cut : Bool) (sys : r.Sys) → log (r.gps_end cut sys) ≡ cut ∷ log sys
  pub begun_ext : (sys : r.Sys) → log (r.gps_begin_ext sys).1 ≡ log sys
  pub begun : (sys : r.Sys) → log (r.gps_begin sys).1 ≡ log sys
  pub buzzed : (frequency : ℕ) (sys : r.Sys) → log (r.buzzer frequency sys) ≡ log sys
  pub waited : (ms : ℕ) (sys : r.Sys) → log (r.delay ms sys) ≡ log sys

-- `n` shutdowns, the latest first: the first leaves the power on, and each later one cuts it.
abbrev pub shutdowns : ℕ → List Bool
shutdowns zero = []
shutdowns (suc n) = ltb 0 n ∷ shutdowns n

module _ (r : Receiver) (log : r.Sys → List Bool) (is_log : IsLog r log) where
  -- The rounds without a fix. Between two of them the drivers go on.
  abbrev pub without_fix : List (r.Sys → r.Sys) → Gnss r → Gnss r
  without_fix [] s = s
  without_fix (f ∷ fs) s = without_fix fs (watch r false (record s { sys = f s.sys }))

  abbrev pub KeepLog : List (r.Sys → r.Sys) → Type 0
  KeepLog [] = Unit
  KeepLog (f ∷ fs) = ((sys : r.Sys) → log (f sys) ≡ log sys) × KeepLog fs

  -- The state after `n` shutdowns.
  pub record After (base : List Bool) (n : ℕ) (s : Gnss r) : Type 0 where
    pub counted : s.resets ≡ n
    pub logged : log s.sys ≡ shutdowns n ++ base
