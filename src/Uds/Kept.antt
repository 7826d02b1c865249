-- ===== src/Uds/Kept.antt =====
-- What `CUDS::readDID` keeps, a call of `processUDS` (src/main.cpp) keeps.
use vorsprung_logger.Base.{
  ℕ, zero, suc, ◌+◌, ◌%◌, inl, inr, Bool, ltb, ◌==◌, Bool-cases, Option-cases, List, [], ◌∷◌, ◌++◌,
  Option, none, some, get_elem?, get_or,
}
use vorsprung_logger.Buffer.{Buffer}
use vorsprung_logger.Uds.Table.{Entry, is_group_member, uds_did_table}
use vorsprung_logger.Uds.Decode.{FloatOps}
use vorsprung_logger.Uds.Schedule.{
  uds_did_count, Scheduler, read_uds_value, poll_uds, stage, read_group, Cycle, serve_entry,
  serve_one, serve, start_cycle, process_uds,
}

module _ (f : FloatOps) (Bus : Type 0) (read_did : ℕ → ℕ → Bus → Option (List ℕ) × Bus) where
  module _ (Kept : Bus → Type 0)
      (keeps : (did req : ℕ) (bus : Bus) → Kept bus → Kept (read_did did req bus).1) where
    pub read_uds_value-Kept :
        (e : Entry) (bus : Bus) → Kept bus → Kept (read_uds_value f Bus read_did e bus).1
    unfolding read_uds_value
    read_uds_value-Kept e bus h = keeps e.did e.req_id bus h

    stage-Kept :
        (es : List Entry) (reads : ℕ) (staged : List (Entry × f.Float)) (bus : Bus)
        → Kept bus
        → Kept (stage f Bus read_did es reads staged bus).bus
    unfolding stage
    stage-Kept [] reads staged bus h = h
    stage-Kept (e ∷ es) reads staged bus h = elim (Bool-cases (is_group_member e)) [
      | inr n ↦ rw (n, stage) (stage-Kept es reads staged bus h)
      | inl y ↦ elim (Option-cases (read_uds_value f Bus read_did e bus).0) [
        | inl k ↦ rw (y, k, stage) (read_uds_value-Kept e bus h)
        | inr (v, k) ↦
            rw (y, k, stage)
              (stage-Kept es (reads + 1) (staged ++ (e, v) ∷ [])
                (read_uds_value f Bus read_did e bus).1 (read_uds_value-Kept e bus h))
      ]
    ]

    start_cycle-Kept :
        (s : Scheduler) (b : Buffer) (rpm_valid : Bool) (bus : Bus)
        → Kept bus
        → Kept (start_cycle f Bus read_did s b rpm_valid bus).1.bus
    unfolding start_cycle read_group
    start_cycle-Kept s b rpm_valid bus h = elim (Bool-cases (ltb 0 s.group_wait)) [
      | inl w ↦ rw w h
      | inr due ↦ elim (Bool-cases rpm_valid) [
        | inl y ↦ rw (due, y) (stage-Kept uds_did_table 0 [] bus h)
        | inr n ↦ rw (due, n) h
      ]
    ]

    serve_entry-Kept :
        (i : ℕ) (o : Option Entry) (c : Cycle f Bus read_did)
        → Kept c.bus
        → Kept (serve_entry f Bus read_did i o c).bus
    unfolding poll_uds
    serve_entry-Kept i none c h = h
    serve_entry-Kept i (some e) c h = elim (Bool-cases (is_group_member e)) [
      | inl y ↦ rw y h
      | inr n ↦ elim (Bool-cases (get_or c.wait i 0 == 0)) [
        | inr w ↦ rw (n, w) h
        | inl z ↦ rw (n, z) (read_uds_value-Kept e c.bus h)
      ]
    ]

    pub serve-Kept :
        (left rr n : ℕ) (c : Cycle f Bus read_did)
        → Kept c.bus
        → Kept (serve f Bus read_did left rr n c).bus
    unfolding serve serve_one
    serve-Kept zero rr n c h = h
    serve-Kept (suc left) rr n c h = elim (Bool-cases (c.budget == 0)) [
      | inl z ↦ rw z h
      | inr nz ↦
          let i = (rr + n) % uds_did_count in
          rw nz (
            serve-Kept left rr (n + 1) (serve_one f Bus read_did i c)
              (serve_entry-Kept i (get_elem? uds_did_table i) c h))
    ]

    pub process_uds-Kept :
        (s : Scheduler) (b : Buffer) (rpm_valid : Bool) (bus : Bus)
        → Kept bus
        → Kept (process_uds f Bus read_did s b rpm_valid bus).2
    unfolding process_uds
    process_uds-Kept s b rpm_valid bus h =
        serve-Kept uds_did_count s.rr 0 (start_cycle f Bus read_did s b rpm_valid bus).1
          (start_cycle-Kept s b rpm_valid bus h)
