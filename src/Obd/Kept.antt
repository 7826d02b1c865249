-- ===== src/Obd/Kept.antt =====
-- A poll of `processOBD` (src/main.cpp) keeps the tiers of the rows and the cursors.
use vorsprung_logger.Base.{
  ℕ, zero, suc, ◌≡◌, refl, sym, ◌∙◌, inl, inr, ltb, leb, ◌^◌, ◌&&◌, Bool-cases, List, [], ◌∷◌,
  Option, none, some, set,
}
use vorsprung_logger.Obd.{PidPollingInfo, row, Engine, Polling, take_answer, poll, note_motion}
use vorsprung_logger.Obd.Tiers.{IsTable, IsPolling}

-- A write that keeps the tier of its row keeps the tier of every row.
tier-set :
    (cells : List PidPollingInfo) (i j : ℕ) (e : PidPollingInfo)
    → e.tier ≡ (row cells i).tier
    → (row (set cells i e) j).tier ≡ (row cells j).tier
tier-set [] i j e h = refl
tier-set (c ∷ cs) zero zero e h = h
tier-set (c ∷ cs) zero (suc j) e h = refl
tier-set (c ∷ cs) (suc i) zero e h = refl
tier-set (c ∷ cs) (suc i) (suc j) e h = tier-set cs i j e h

IsTable-tiers :
    (cells cells' : List PidPollingInfo)
    → ((j : ℕ) → (row cells' j).tier ≡ (row cells j).tier)
    → IsTable cells
    → IsTable cells'
IsTable-tiers cells cells' same t = record {
  low = λ i a. same i ∙ t.low i a;
  mid = λ i a b. same i ∙ t.mid i a b;
  high = λ i a b. same i ∙ t.high i a b;
  behind = λ e. t.behind (sym (same 8) ∙ e);
}

module _ (engine : Engine) where
  open engine use {Bus, is_valid_pid, read_pid, millis}

  take_answer-IsPolling :
      (i tier : ℕ) (answer : Option ℕ) (s : Polling engine)
      → IsPolling engine s
      → IsPolling engine (take_answer engine i tier answer s).1
  take_answer-IsPolling i tier none s good = record { table = good.table; idx = good.idx }
  take_answer-IsPolling i tier (some value) s good = record {
    table =
        IsTable-tiers s.cells (take_answer engine i tier (some value) s).1.cells
          (λ j.
            tier-set s.cells i j (record (row s.cells i) { value = value; ts = millis s.bus }) refl)
          good.table;
    idx = good.idx;
  }

  pub poll-IsPolling :
      (i tier : ℕ) (s : Polling engine)
      → IsPolling engine s
      → IsPolling engine (poll engine i tier s).1
  unfolding poll
  poll-IsPolling i tier s good =
      let pid = (row s.cells i).pid in
      elim (Bool-cases (is_valid_pid pid s.bus)) [
        | inl e ↦ rw e (
            take_answer-IsPolling i tier (read_pid pid s.bus).0
              (record s { bus = (read_pid pid s.bus).1 })
              (record { table = good.table; idx = good.idx }))
        | inr e ↦ rw e good
      ]

  pub note_motion_lem :
      (s : Polling engine)
      → (IsPolling engine s → IsPolling engine (note_motion engine s))
        × ((note_motion engine s).bus ≡ s.bus)
        × ((note_motion engine s).buffer ≡ s.buffer)
  note_motion_lem s =
      let kph = (row s.cells 0).value in
      elim (Bool-cases (leb 2 kph && ltb kph (2 ^ 31))) [
        | inl e ↦ rw e (λ good. record { table = good.table; idx = good.idx }, refl, refl)
        | inr e ↦ rw e (λ good. good, refl, refl)
      ]
