-- ===== src/Examples/Diagnostics.antt =====
-- The diagnostic requests with whole numbers in place of floats, and a bus that counts.
use vorsprung_logger.Base.{
  ◌++◌, length, none, arith, Bool, false, ◌||◌, ℕ, ◌+◌, ◌-◌, ◌*◌, ◌/◌, ◌≤◌, ◌≡◌, ◌⊎◌, refl, true,
  ltb, leb, ◌==◌, List, [], ◌∷◌, Option, some, replicate,
}
use vorsprung_logger.Base.Int.{pos, pos_part}
use vorsprung_logger.Buffer.{empty, Buffer}
use vorsprung_logger.Uds.Table.{
  Entry, u16_div100_2b, u16_raw_2b, uds_ecu_scr, uds_slow, uds_did_table,
}
use vorsprung_logger.Uds.Decode.{FloatOps, decode, uds_value_plausible}
use vorsprung_logger.Uds.Schedule.{
  Scheduler, value_of, read_uds_value, stage, read_group, serve, serve_one, start_cycle,
  process_uds, poll_uds,
}
use vorsprung_logger.Uds.Rows.{decode-bytes}
use vorsprung_logger.Uds.Fair.{run_cycles, process_uds-fair}
use vorsprung_logger.Buffer.Room.{bytes_of}
use vorsprung_logger.Uds.Group.{calls_of, read_group_complete}
use vorsprung_logger.Uds.Budget.{members_of, entries, process_uds-asked}

abbrev pub whole_numbers : FloatOps
whole_numbers = record {
  Float = ℕ;
  cast = pos_part;
  literal = λ a b. pos_part a / b;
  minus = λ a b. a - b;
  times = λ a b. a * b;
  over = λ a b. a / b;
  at_most = leb;
  plus = λ a b. a + b;
  is_nought = λ a. a == 0;
  far = λ a. ltb 0 a;
  truncated = λ a. pos a;
  truncated16 = λ a. a;
  bits = λ a. a;
  overflow = λ days sod. days * 86400 + sod;
}

-- Each request is answered with the same four bytes.
abbrev answer : ℕ → ℕ → ℕ → Option (List ℕ) × ℕ
answer did req asked = (some (1 ∷ 44 ∷ 0 ∷ 0 ∷ []), asked + 1)

abbrev pub blank_slot : Buffer
blank_slot = record {
  tick = 0;
  timestamp = 0;
  total = 0;
  state = empty;
  used = [];
  rest = replicate 256 0;
}

abbrev pub at_boot : Scheduler
at_boot = record { wait = replicate 51 0; rr = 0; group_wait = 0 }

-- The first cycle takes the group of five, and three more rows.
first_cycle : (process_uds whole_numbers ℕ answer at_boot blank_slot true 0).2 ≡ 8
unfolding process_uds start_cycle read_group stage serve serve_one read_uds_value poll_uds value_of
    decode uds_value_plausible
first_cycle = refl

first_cursor : (process_uds whole_numbers ℕ answer at_boot blank_slot true 0).0.rr ≡ 3
unfolding process_uds start_cycle read_group stage serve serve_one read_uds_value poll_uds value_of
    decode uds_value_plausible
first_cursor = refl

process_uds-asked_example : (process_uds whole_numbers ℕ answer at_boot blank_slot true 0).2 ≤ 0 + 8
process_uds-asked_example =
    process_uds-asked whole_numbers ℕ answer (λ n. n) (λ did req n. refl) at_boot blank_slot true 0

read_group_complete_example :
    let b' = (read_group whole_numbers ℕ answer blank_slot true 0).1 in
    (b' ≡ blank_slot)
    ⊎ ((vs : List (Entry × ℕ)) × (entries whole_numbers ℕ answer vs ≡ members_of uds_did_table)
        × (b'.used ≡ blank_slot.used ++ bytes_of (calls_of whole_numbers ℕ answer vs))
        × (b'.total ≡ blank_slot.total + length (members_of uds_did_table)))
read_group_complete_example =
    read_group_complete whole_numbers ℕ answer blank_slot true 0 (omega arith) (omega arith)

-- Row 26, the air mass.
abbrev maf : Entry
maf = record {
  did = 0xF410;
  req_id = 0x7E0;
  synthetic_pid = 0x21A;
  bytes = 2;
  interval_cycles = 0;
  decoder = u16_div100_2b;
  unit = b'g' ∷ b'/' ∷ b's' ∷ [];
}

decode-bytes_example :
    decode whole_numbers u16_div100_2b (1 ∷ 44 ∷ [])
    ≡ decode whole_numbers u16_div100_2b (1 ∷ 44 ∷ 9 ∷ [])
decode-bytes_example = decode-bytes whole_numbers 26 maf (1 ∷ 44 ∷ 9 ∷ []) refl

-- A bus that notes the identifiers it is asked for, and answers none.
abbrev note : ℕ → ℕ → List ℕ → Option (List ℕ) × List ℕ
note did req asked = (none, did ∷ asked)

abbrev heard : ℕ → List ℕ → Bool
heard did [] = false
heard did (d ∷ asked) = d == did || heard did asked

heard-note : (did d : ℕ) (asked : List ℕ) → heard did asked ≡ true → heard did (d ∷ asked) ≡ true
heard-note did d asked h = ground (arith, h)

-- The last row of the table, at boot.
process_uds-fair_example :
    heard 0x3F4D (
      run_cycles whole_numbers
        (List ℕ)
        note
        (λ bus. bus)
        (replicate 17 (blank_slot, true))
        at_boot
        [])
    ≡ true
process_uds-fair_example =
    process_uds-fair whole_numbers (List ℕ) note (λ bus. heard 0x3F4D bus ≡ true)
      (λ did req bus h. heard-note 0x3F4D did bus h) 50
      (record {
        did = 0x3F4D;
        req_id = uds_ecu_scr;
        synthetic_pid = 0x232;
        bytes = 2;
        interval_cycles = uds_slow;
        decoder = u16_raw_2b;
        unit = b'r' ∷ b'p' ∷ b'm' ∷ [];
      })
      refl refl (λ bus. refl) (λ bus. bus) (λ bus h. h) (replicate 17 (blank_slot, true)) at_boot []
      refl (omega arith)
