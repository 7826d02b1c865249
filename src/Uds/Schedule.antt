-- ===== src/Uds/Schedule.antt =====
-- `readUDSValue`, `pollUDS`, `readGroup` and `processUDS` of src/main.cpp. The bus is a parameter:
-- its state, and `CUDS::readDID` of an identifier at a control unit.
use vorsprung_logger.Base.{
  ℕ, zero, suc, ◌+◌, ◌-◌, ◌%◌, Bool, true, false, not, ltb, ◌==◌, if◌then◌else◌, List, [], ◌∷◌,
  ◌++◌, Option, none, some, length, get_elem?, get_or, set,
}
use vorsprung_logger.Buffer.{Buffer, add, element_float_d2}
use vorsprung_logger.Buffer.Elements.{word_bytes}
use vorsprung_logger.Uds.Table.{Entry, is_group_member, uds_did_table}
use vorsprung_logger.Uds.Decode.{FloatOps, decode, uds_value_plausible}

abbrev pub uds_max_per_cycle : ℕ
uds_max_per_cycle = 8

abbrev pub uds_group_period : ℕ
uds_group_period = 3

abbrev pub uds_did_count : ℕ
uds_did_count = length uds_did_table

-- The static variables of `processUDS`.
pub record Scheduler : Type 0 where
  pub wait : List ℕ
  pub rr : ℕ
  pub group_wait : ℕ

-- The last loop of `processUDS`.
unfoldable pub age : List Entry → List ℕ → List ℕ
age [] wait = wait
age (e ∷ es) [] = []
age (e ∷ es) (w ∷ wait) = (if is_group_member e then w else w - 1) ∷ age es wait

module _ (f : FloatOps) (Bus : Type 0) (read_did : ℕ → ℕ → Bus → Option (List ℕ) × Bus) where
  open f use {Float, bits}

  -- What becomes of an answer: nothing, if it failed, is too short or is implausible.
  unfoldable pub value_of : Entry → Option (List ℕ) → Option Float
  value_of e none = none
  value_of e (some payload) =
      let v = decode f e.decoder payload in
      if ltb (length payload) e.bytes
      then none
      else if uds_value_plausible f e v
      then some v
      else none

  unfoldable pub read_uds_value : Entry → Bus → Option Float × Bus
  read_uds_value e bus =
      let (answer, bus') = read_did e.did e.req_id bus in (value_of e answer, bus')

  -- `buffer->add` of a value.
  abbrev pub add_value : Entry → Float → Buffer → Buffer
  add_value e v b = add e.synthetic_pid element_float_d2 (word_bytes 4 (bits v)) 1 b

  abbrev pub add_read : Entry → Option Float → Buffer → Buffer
  add_read e none b = b
  add_read e (some v) b = add_value e v b

  unfoldable pub poll_uds : Buffer → Entry → Bus → Buffer × Bus
  poll_uds b e bus = let (v, bus') = read_uds_value e bus in (add_read e v b, bus')

  -- The staging loop of `readGroup`: the reads attempted, and the values unless one failed.
  pub record Staged : Type 0 where
    pub reads : ℕ
    pub members : Option (List (Entry × Float))
    pub bus : Bus

  unfoldable pub stage : List Entry → ℕ → List (Entry × Float) → Bus → Staged
  stage [] reads staged bus = record { reads = reads; members = some staged; bus = bus }
  stage (e ∷ es) reads staged bus =
      let (value, bus') = read_uds_value e bus in
      elim (is_group_member e) [
        | false ↦ stage es reads staged bus
        | true ↦ elim value [
          | none ↦ record { reads = reads + 1; members = none; bus = bus' }
          | some v ↦ stage es (reads + 1) (staged ++ (e, v) ∷ []) bus'
        ]
      ]

  unfoldable pub commit : List (Entry × Float) → Buffer → Buffer
  commit [] b = b
  commit ((e, v) ∷ staged) b = commit staged (add_value e v b)

  abbrev pub commit_members : Option (List (Entry × Float)) → Buffer → Buffer
  commit_members none b = b
  commit_members (some staged) b = commit staged b

  -- `readGroup`: the reads attempted, the slot and the bus.
  unfoldable pub read_group : Buffer → Bool → Bus → ℕ × Buffer × Bus
  read_group b rpm_valid bus =
      if not rpm_valid
      then (0, b, bus)
      else let s = stage uds_did_table 0 [] bus in (s.reads, commit_members s.members b, s.bus)

  -- The variables of `processUDS` while its loop runs.
  pub record Cycle : Type 0 where
    pub buffer : Buffer
    pub wait : List ℕ
    pub budget : ℕ
    pub last_served : Option ℕ
    pub bus : Bus

  abbrev pub serve_due : ℕ → Entry → Cycle → Cycle
  serve_due i e c =
      let (buffer', bus') = poll_uds c.buffer e c.bus in
      record {
        buffer = buffer';
        wait = set c.wait i e.interval_cycles;
        budget = c.budget - 1;
        last_served = some i;
        bus = bus';
      }

  -- The body of the loop, at table index `i`.
  abbrev pub serve_entry : ℕ → Option Entry → Cycle → Cycle
  serve_entry i none c = c
  serve_entry i (some e) c =
      if is_group_member e then c else if not (get_or c.wait i 0 == 0) then c else serve_due i e c

  unfoldable pub serve_one : ℕ → Cycle → Cycle
  serve_one i c = serve_entry i (get_elem? uds_did_table i) c

  -- The loop from `n` on, with `left` rounds to go.
  unfoldable pub serve : ℕ → ℕ → ℕ → Cycle → Cycle
  serve zero rr n c = c
  serve (suc left) rr n c =
      let next = serve left rr (n + 1) (serve_one ((rr + n) % uds_did_count) c) in
      if c.budget == 0 then c else next

  -- The first part of `processUDS`: the group, every third cycle.
  unfoldable pub start_cycle : Scheduler → Buffer → Bool → Bus → ℕ × Cycle
  start_cycle s b rpm_valid bus =
      let (reads, b', bus') = read_group b rpm_valid bus in
      if ltb 0 s.group_wait
      then (
        s.group_wait - 1,
        record {
          buffer = b;
          wait = s.wait;
          budget = uds_max_per_cycle;
          last_served = none;
          bus = bus;
        },
      )
      else (
        uds_group_period - 1,
        record {
          buffer = b';
          wait = s.wait;
          budget = uds_max_per_cycle - reads;
          last_served = none;
          bus = bus';
        },
      )

  abbrev pub next_rr : ℕ → Option ℕ → ℕ
  next_rr rr none = rr
  next_rr rr (some i) = (i + 1) % uds_did_count

  unfoldable pub process_uds : Scheduler → Buffer → Bool → Bus → Scheduler × Buffer × Bus
  process_uds s b rpm_valid bus =
      let (group_wait', c) = start_cycle s b rpm_valid bus in
      let c' = serve uds_did_count s.rr 0 c in
      (
        record {
          wait = age uds_did_table c'.wait;
          rr = next_rr s.rr c'.last_served;
          group_wait = group_wait';
        },
        c'.buffer,
        c'.bus,
      )
