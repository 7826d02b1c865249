-- ===== src/Obd/Bounds.antt =====
-- One call of `processOBD` (src/main.cpp): it ends, it leaves its variables in order, and it asks the
-- car a bounded number of times.
use vorsprung_logger.Base.{
  ℕ, zero, suc, ◌+◌, ◌-◌, ◌*◌, ◌≤◌, ◌<◌, ◌≡◌, refl, sym, inl, inr, Bool, true, false, ltb, ◌==◌,
  if◌then◌else◌, Bool-cases, Option-cases, arith,
}
use mathlib.Core.Path.{subst₂}
use vorsprung_logger.Buffer.{Buffer, add, element_int32}
use vorsprung_logger.Buffer.Elements.{word_bytes}
use vorsprung_logger.Obd.{row, Engine, Polling, enter_tier, poll, poll_from, poll_fuel, process_obd}
use vorsprung_logger.Obd.Kept.{poll-IsPolling, note_motion_lem}
use vorsprung_logger.Obd.Tiers.{IsAt, IsPolling, enter_tier-Entered}

module _ (engine : Engine) where
  open engine use {Bus, is_valid_pid, read_pid}

  -- What a call costs, in questions: a property of the bus and of the slot, with the number of the
  -- questions so far.
  module _ (Cost : ℕ → Bus → Buffer → Type 0)
      (weaken : (n m : ℕ) (bus : Bus) (b : Buffer) → n ≤ m → Cost n bus b → Cost m bus b)
      (unanswered : (n pid : ℕ) (bus : Bus) (b : Buffer)
        → Cost n bus b
        → Cost (suc n) (read_pid pid bus).1 b)
      (answered : (n pid value : ℕ) (bus : Bus) (b : Buffer)
        → Cost n bus b
        → Cost
            (suc n)
            (read_pid pid bus).1
            (add (pid + 0x100) element_int32 (word_bytes 4 value) 1 b)) where
    -- What a poll costs. Behind the first tier, a question ends the loop.
    poll-Cost :
        (n i tier : ℕ) (s : Polling engine)
        → Cost n s.bus s.buffer
        → let (on, s') = poll engine i tier s in
          Cost (suc n) s'.bus s'.buffer × ((on ≡ true) → (1 < tier) → Cost n s'.bus s'.buffer)
    unfolding poll
    poll-Cost n i tier s h =
        let pid = (row s.cells i).pid in
        let (answer, bus') = read_pid pid s.bus in
        elim (Bool-cases (is_valid_pid pid s.bus)) [
          | inl e ↦ elim (Option-cases answer) [
            | inl f ↦
                rw (e, f) (unanswered n pid s.bus s.buffer h, λ go slow. absurd (ground arith))
            | inr (v, f) ↦
                rw (e, f) (answered n pid v s.bus s.buffer h, λ go slow. absurd (ground arith))
          ]
          | inr e ↦ rw e (weaken n (suc n) s.bus s.buffer (omega arith) h, λ go slow. h)
        ]

    -- The questions left.
    abbrev spare : ℕ → ℕ → ℕ
    spare i tier = if tier == 1 then 5 - i else 1

    spare-next :
        (i tier j k : ℕ) → 1 ≤ tier → i ≤ 2 * tier + 2 → i ≤ j → tier ≤ k → spare j k ≤ spare i tier
    spare-next i tier j k one below ahead slower = ground arith

    spare-one : (i tier : ℕ) → 1 ≤ tier → i ≤ 2 * tier + 2 → 1 ≤ spare i tier
    spare-one i tier one below = ground arith

    spare-poll :
        (i tier j k : ℕ)
        → 1 ≤ tier
        → i ≤ 2 * tier + 2
        → i ≤ j
        → tier ≤ k
        → j + 1 ≤ 2 * k + 2
        → ltb 1 k ≡ false
        → suc (spare (j + 1) k) ≤ spare i tier
    spare-poll i tier j k one below ahead slower inside first = ground arith

    record Ended (n i tier : ℕ) (r : Bool × Polling engine) : Type 0 where
      ended : r.0 ≡ true
      polling : IsPolling engine r.1
      few : Cost (n + spare i tier) r.1.bus r.1.buffer

    -- The rounds behind a poll that goes on.
    later_rounds :
        (n i tier j k : ℕ) (on : Bool) (s' : Polling engine) (r : Bool × Polling engine)
        → 1 ≤ tier
        → i ≤ 2 * tier + 2
        → i ≤ j
        → tier ≤ k
        → j + 1 ≤ 2 * k + 2
        → Cost (suc n) s'.bus s'.buffer × ((on ≡ true) → (1 < k) → Cost n s'.bus s'.buffer)
        → on ≡ true
        → ((m : ℕ) → Cost m s'.bus s'.buffer → Ended m (j + 1) k r)
        → Ended n i tier r
    later_rounds n i tier j k on s' r one below ahead slower inside cost goes rest =
        elim (Bool-cases (ltb 1 k)) [
          | inl e ↦
              let o = rest n (cost.1 goes (ground arith)) in
              record {
                ended = o.ended;
                polling = o.polling;
                few =
                    weaken (n + spare (j + 1) k) (n + spare i tier) r.1.bus r.1.buffer
                      (omega (arith, spare-next i tier (j + 1) k one below (omega arith) slower))
                      o.few;
              }
          | inr e ↦
              let o = rest (suc n) cost.0 in
              record {
                ended = o.ended;
                polling = o.polling;
                few =
                    weaken (suc n + spare (j + 1) k) (n + spare i tier) r.1.bus r.1.buffer
                      (omega (arith, spare-poll i tier j k one below ahead slower inside e)) o.few;
              }
        ]

    poll_from-Ended :
        (fuel n i tier : ℕ) (s : Polling engine)
        → IsPolling engine s
        → IsAt i tier
        → 12 ≤ fuel + i + tier
        → Cost n s.bus s.buffer
        → Ended n i tier (poll_from engine fuel i tier s)
    unfolding poll_from
    poll_from-Ended zero n i tier s good at enough cost = absurd (omega (arith, at.below, at.top))
    poll_from-Ended (suc fuel) n i tier s good at enough cost =
        let place = enter_tier engine i tier s in
        let (on, s') = poll engine place.index place.tier place.state in
        elim (Bool-cases (ltb i 8)) [
          | inr e ↦ rw e (record {
            ended = refl;
            polling = good;
            few = weaken n (n + spare i tier) s.bus s.buffer (omega arith) cost;
          })
          | inl e ↦ elim (enter_tier-Entered engine i tier s good at (ground arith)) [
            | inr (here, missed) ↦
                let rest =
                  poll_from-Ended fuel n place.index place.tier place.state missed.polling missed.at
                    (omega (arith, missed.slower, missed.forth))
                    (subst₂ (Cost n) (sym missed.same_bus) (sym missed.same_buffer) cost) in
                rw (e, here)
                  (record {
                    ended = rest.ended;
                    polling = rest.polling;
                    few =
                        weaken (n + spare place.index place.tier) (n + spare i tier)
                          (poll_from engine fuel place.index place.tier place.state).1.bus
                          (poll_from engine fuel place.index place.tier place.state).1.buffer
                          (omega (
                            arith,
                            spare-next i tier place.index place.tier at.one at.below missed.forth
                                (omega (arith, missed.slower)),
                          ))
                          rest.few;
                  })
            | inl (here, placed) ↦
                let polled =
                  poll-IsPolling engine place.index place.tier place.state placed.polling in
                let costs =
                  poll-Cost n place.index place.tier place.state
                    (subst₂ (Cost n) (sym placed.same_bus) (sym placed.same_buffer) cost) in
                elim (Bool-cases on) [
                  | inr off ↦
                      rw (e, here, off)
                        (record {
                          ended = refl;
                          polling = polled;
                          few =
                              weaken (suc n) (n + spare i tier) s'.bus s'.buffer
                                (omega (arith, spare-one i tier at.one at.below)) costs.0;
                        })
                  | inl goes ↦
                      rw (e, here, goes)
                        (later_rounds n i tier place.index place.tier on s'
                          (poll_from engine fuel (place.index + 1) place.tier s') at.one at.below
                          placed.ahead placed.not_faster placed.next.below costs goes
                          (λ m cost'.
                            poll_from-Ended fuel m (place.index + 1) place.tier s' polled
                              placed.next (omega (arith, placed.ahead, placed.not_faster)) cost'))
                ]
          ]
        ]

    pub process_obd-Ended :
        (n : ℕ) (s : Polling engine)
        → IsPolling engine s
        → Cost n s.bus s.buffer
        → ((process_obd engine s).0 ≡ true)
          × IsPolling engine (process_obd engine s).1
          × Cost (n + 5) (process_obd engine s).1.bus (process_obd engine s).1.buffer
    unfolding process_obd
    process_obd-Ended n s good cost =
        let start : Polling engine = record s { rpm_valid = false } in
        let r =
          poll_from-Ended poll_fuel n 0 1 start (record { table = good.table; idx = good.idx })
            (record {
              one = omega arith;
              top = omega arith;
              below = omega arith;
              above = omega arith;
            })
            (omega arith) cost in
        let s' = (poll_from engine poll_fuel 0 1 start).1 in
        let (polling, bus, buffer) = note_motion_lem engine s' in
        (r.ended, polling r.polling, subst₂ (Cost (n + 5)) (sym bus) (sym buffer) r.few)

  -- A call asks the car for at most five values, the four of the first tier and one slower, when a
  -- read counts as one question at most.
  pub process_obd-asked :
      (asked : Bus → ℕ)
      → ((pid : ℕ) (bus : Bus) → asked (read_pid pid bus).1 ≤ suc (asked bus))
      → (s : Polling engine) → IsPolling engine s
      → asked (process_obd engine s).1.bus ≤ asked s.bus + 5
  process_obd-asked asked asks s good =
      let (ended, polling, few) =
        process_obd-Ended (λ n bus b. asked bus ≤ asked s.bus + n) (λ n m bus b le h. omega arith)
          (λ n pid bus b h. omega (arith, asks pid bus))
          (λ n pid value bus b h. omega (arith, asks pid bus)) 0 s good (omega arith) in
      few
