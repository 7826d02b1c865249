-- ===== src/Examples/Engine.antt =====
-- A car that offers each value, and answers 60 to each question.
use vorsprung_logger.Base.{
  ℕ, zero, suc, ◌+◌, ◌≤◌, ◌<◌, ◌≡◌, refl, true, false, List, [], ◌∷◌, ◌++◌, some, arith,
}
use vorsprung_logger.Buffer.{add}
use vorsprung_logger.Obd.{
  PidPollingInfo, row, obd_data, Engine, Polling, enter_tier, poll, poll_from, process_obd,
}
use vorsprung_logger.Obd.Tiers.{IsPolling}
use vorsprung_logger.Obd.Bounds.{process_obd-asked}
use vorsprung_logger.Examples.Diagnostics.{blank_slot}

-- The bus counts the questions, and so does its clock.
abbrev pub talkative : Engine
talkative = record {
  Bus = ℕ;
  is_valid_pid = λ pid bus. true;
  read_pid = λ pid bus. (some 60, bus + 1);
  millis = λ bus. bus;
}

abbrev pub cells_at_boot : List PidPollingInfo
cells_at_boot = obd_data ++ record { pid = 0; tier = 0; value = 0; ts = 0 } ∷ []

abbrev pub engine_at_boot : Polling talkative
engine_at_boot = record {
  cells = cells_at_boot;
  idx = 7 ∷ 0 ∷ 0 ∷ [];
  rpm_valid = false;
  timeouts_obd = 0;
  last_motion_time = 0;
  buffer = blank_slot;
  bus = 0;
}

abbrev call : Polling talkative → Polling talkative
call s = (process_obd talkative s).1

-- Four values of the first tier and one of the second; the cell in front of the cursors is cleared.
first_call : (call engine_at_boot).idx ≡ 0 ∷ 1 ∷ 0 ∷ []
unfolding process_obd poll_from enter_tier poll add
first_call = refl

-- The third call finds the second tier done, and reads the third.
third_call : (call (call (call engine_at_boot))).idx ≡ 0 ∷ 0 ∷ 1 ∷ []
unfolding process_obd poll_from enter_tier poll add
third_call = refl

low : (i : ℕ) → i < 4 → (row cells_at_boot i).tier ≡ 1
low zero h = refl
low (suc zero) h = refl
low (suc (suc zero)) h = refl
low (suc (suc (suc zero))) h = refl
low (suc (suc (suc (suc i)))) h = absurd (omega arith)

mid : (i : ℕ) → 4 ≤ i → i < 6 → (row cells_at_boot i).tier ≡ 2
mid (suc (suc (suc (suc zero)))) h k = refl
mid (suc (suc (suc (suc (suc zero))))) h k = refl
mid zero h k = absurd (omega arith)
mid (suc zero) h k = absurd (omega arith)
mid (suc (suc zero)) h k = absurd (omega arith)
mid (suc (suc (suc zero))) h k = absurd (omega arith)
mid (suc (suc (suc (suc (suc (suc i)))))) h k = absurd (omega arith)

high : (i : ℕ) → 6 ≤ i → i < 8 → (row cells_at_boot i).tier ≡ 3
high (suc (suc (suc (suc (suc (suc zero)))))) h k = refl
high (suc (suc (suc (suc (suc (suc (suc zero))))))) h k = refl
high zero h k = absurd (omega arith)
high (suc zero) h k = absurd (omega arith)
high (suc (suc zero)) h k = absurd (omega arith)
high (suc (suc (suc zero))) h k = absurd (omega arith)
high (suc (suc (suc (suc zero)))) h k = absurd (omega arith)
high (suc (suc (suc (suc (suc zero))))) h k = absurd (omega arith)
high (suc (suc (suc (suc (suc (suc (suc (suc i)))))))) h k = absurd (omega arith)

pub boot-IsPolling : IsPolling talkative engine_at_boot
boot-IsPolling = record {
  table = record { low = low; mid = mid; high = high; behind = λ e. omega (arith, e) };
  idx = record { three = refl; second = omega arith; third = omega arith };
}

process_obd-asked_example : (process_obd talkative engine_at_boot).1.bus ≤ 0 + 5
process_obd-asked_example =
    process_obd-asked talkative (λ n. n) (λ pid bus. omega arith) engine_at_boot boot-IsPolling
