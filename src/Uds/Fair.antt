-- ===== src/Uds/Fair.antt =====
-- The rotating cursor of `processUDS` (src/main.cpp) leaves no row of the table behind.
use vorsprung_logger.Base.{
  ℕ, zero, suc, ◌+◌, ◌-◌, ◌*◌, ◌%◌, ◌≤◌, ◌<◌, ◌≡◌, refl, ap, ◌∙◌, ◌⊎◌, inl, inr, Bool, false, List,
  [], ◌∷◌, Option, some, length, get_elem?, get_or, arith,
}
use vorsprung_logger.Buffer.{Buffer}
use vorsprung_logger.Uds.Table.{Entry, is_group_member, uds_did_table}
use vorsprung_logger.Uds.Decode.{FloatOps}
use vorsprung_logger.Uds.Schedule.{
  uds_did_count, Scheduler, serve, start_cycle, next_rr, process_uds,
}
use vorsprung_logger.Uds.Kept.{process_uds-Kept}
use vorsprung_logger.Uds.Rounds.{
  inside, get_or-age, length-age, serve-Passed, serve-wait, start_cycle-begins,
}

module _ (f : FloatOps) (Bus : Type 0) (read_did : ℕ → ℕ → Bus → Option (List ℕ) × Bus) where
  -- Cycles, each with its slot and with whether the rpm was read; between two of them the bus is
  -- used for something else.
  module _ (between : Bus → Bus) where
    abbrev pub run_cycles : List (Buffer × Bool) → Scheduler → Bus → Bus
    run_cycles [] s bus = bus
    run_cycles ((b, rpm_valid) ∷ cycles) s bus =
        let (s', b', bus') = process_uds f Bus read_did s b rpm_valid bus in
        run_cycles cycles s' (between bus')

  module _ (Asked : Bus → Type 0)
      (keeps : (did req : ℕ) (bus : Bus) → Asked bus → Asked (read_did did req bus).1) (i : ℕ)
      (e : Entry) (at : get_elem? uds_did_table i ≡ some e) (single : is_group_member e ≡ false)
      (asks : (bus : Bus) → Asked (read_did e.did e.req_id bus).1) where
    -- The row is due, and `k` rows on from the cursor.
    record IsDue (k : ℕ) (s : Scheduler) : Type 0 where
      long : length s.wait ≡ 51
      due : get_or s.wait i 0 ≡ 0
      below : k < 51
      ahead : (s.rr + k) % 51 ≡ i

    next_place :
        (k j rr : ℕ) (last : Option ℕ)
        → last ≡ some ((rr + j) % 51)
        → j < k
        → (rr + k) % 51 ≡ i
        → (next_rr f Bus read_did rr last + (k - (j + 1))) % 51 ≡ i
    next_place k j rr last mark close ahead =
        ap (λ o. (next_rr f Bus read_did rr o + (k - (j + 1))) % 51) mark
        ∙ omega (arith, ahead, close)

    -- A cycle asks for a due row, or brings the cursor three rows nearer to it.
    one_cycle :
        (k : ℕ) (s : Scheduler) (b : Buffer) (rpm_valid : Bool) (bus : Bus)
        → IsDue k s
        → let r = process_uds f Bus read_did s b rpm_valid bus in
          Asked r.2 ⊎ ((m : ℕ) × (m + 3 ≤ k) × IsDue m r.0)
    unfolding process_uds
    one_cycle k s b rpm_valid bus h =
        let c = (start_cycle f Bus read_did s b rpm_valid bus).1 in
        let (wait, last, funds) =
          start_cycle-begins f Bus read_did Asked keeps i e at single asks s b rpm_valid bus in
        let c' = serve f Bus read_did 51 s.rr 0 c in
        elim (serve-Passed f Bus read_did Asked keeps i e at single asks 51 s.rr 0 k c (omega arith)
          (omega arith) h.below h.ahead (ap (λ (l : List ℕ). length l) wait ∙ h.long)
          (ap (λ (l : List ℕ). get_or l i 0) wait ∙ h.due)) [
            | inl asked ↦ inl asked
            | inr p ↦ elim p.behind [
              | inl (broke, same) ↦ absurd (omega (arith, broke, funds))
              | inr (j, mark, far, close) ↦ inr (
                k - (j + 1),
                omega (arith, funds, far, close),
                record {
                  long = length-age uds_did_table c'.wait p.long;
                  due =
                      get_or-age uds_did_table c'.wait i e p.long at single
                      ∙ ap (λ n. n - 1) p.still_due;
                  below = omega (arith, h.below);
                  ahead = next_place k j s.rr c'.last_served mark close h.ahead;
                },
              )
            ]
          ]

    -- A row that waits is counted down.
    waiting_cycle :
        (w : ℕ) (s : Scheduler) (b : Buffer) (rpm_valid : Bool) (bus : Bus)
        → length s.wait ≡ 51
        → get_or s.wait i 0 ≡ suc w
        → let r = process_uds f Bus read_did s b rpm_valid bus in
          (length r.0.wait ≡ 51) × (get_or r.0.wait i 0 ≡ w)
    unfolding process_uds
    waiting_cycle w s b rpm_valid bus long waits =
        let c = (start_cycle f Bus read_did s b rpm_valid bus).1 in
        let begun =
          (start_cycle-begins f Bus read_did Asked keeps i e at single asks s b rpm_valid bus).0 in
        let c' = serve f Bus read_did 51 s.rr 0 c in
        let here : get_or c.wait i 0 ≡ suc w = ap (λ (l : List ℕ). get_or l i 0) begun ∙ waits in
        let (same, long') =
          serve-wait f Bus read_did Asked keeps i e at single asks 51 s.rr 0 c
            (λ z. omega (arith, here, z)) in
        let long'' : length c'.wait ≡ 51 = long' ∙ ap (λ (l : List ℕ). length l) begun ∙ long in
        (
          length-age uds_did_table c'.wait long'',
          get_or-age uds_did_table c'.wait i e long'' at single ∙ omega (arith, same, here),
        )

    module _ (between : Bus → Bus) (keeps_too : (bus : Bus) → Asked bus → Asked (between bus)) where
      run_cycles-Kept :
          (cycles : List (Buffer × Bool)) (s : Scheduler) (bus : Bus)
          → Asked bus
          → Asked (run_cycles between cycles s bus)
      run_cycles-Kept [] s bus h = h
      run_cycles-Kept ((b, rpm_valid) ∷ cycles) s bus h =
          let r = process_uds f Bus read_did s b rpm_valid bus in
          run_cycles-Kept cycles r.0 (between r.2)
            (keeps_too r.2 (process_uds-Kept f Bus read_did Asked keeps s b rpm_valid bus h))

      within_rounds :
          (cycles : List (Buffer × Bool)) (k : ℕ) (s : Scheduler) (bus : Bus)
          → IsDue k s
          → k + 1 ≤ 3 * length cycles
          → Asked (run_cycles between cycles s bus)
      within_rounds [] k s bus h enough = absurd (omega (arith, enough))
      within_rounds ((b, rpm_valid) ∷ cycles) k s bus h enough =
          let r = process_uds f Bus read_did s b rpm_valid bus in
          elim (one_cycle k s b rpm_valid bus h) [
            | inl asked ↦ run_cycles-Kept cycles r.0 (between r.2) (keeps_too r.2 asked)
            | inr (m, nearer, next) ↦
                within_rounds cycles m r.0 (between r.2) next (omega (arith, nearer, enough))
          ]

      asked_after :
          (cycles : List (Buffer × Bool)) (w : ℕ) (s : Scheduler) (bus : Bus)
          → length s.wait ≡ 51
          → get_or s.wait i 0 ≡ w
          → i < 51
          → w + 17 ≤ length cycles
          → Asked (run_cycles between cycles s bus)
      asked_after cycles zero s bus long due below enough =
          within_rounds cycles ((i + (51 - s.rr % 51)) % 51) s bus
            (record { long = long; due = due; below = omega arith; ahead = omega (arith, below) })
            (omega (arith, enough))
      asked_after [] (suc w) s bus long waits below enough = absurd (omega (arith, enough))
      asked_after ((b, rpm_valid) ∷ cycles) (suc w) s bus long waits below enough =
          let r = process_uds f Bus read_did s b rpm_valid bus in
          let (long', waits') = waiting_cycle w s b rpm_valid bus long waits in
          asked_after cycles w r.0 (between r.2) long' waits' below (omega (arith, enough))

      -- No row of the table is left behind: a row that is not of the group, and has so many cycles to
      -- wait yet, is asked for within 17 cycles more, whatever is read and answered in them. The list
      -- of the waits has a place for each row.
      pub process_uds-fair :
          (cycles : List (Buffer × Bool)) (s : Scheduler) (bus : Bus)
          → length s.wait ≡ uds_did_count
          → get_or s.wait i 0 + 17 ≤ length cycles
          → Asked (run_cycles between cycles s bus)
      process_uds-fair cycles s bus long enough =
          asked_after cycles (get_or s.wait i 0) s bus long refl (inside uds_did_table i e at)
            enough
