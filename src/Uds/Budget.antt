-- ===== src/Uds/Budget.antt =====
-- `processUDS` of src/main.cpp asks at most eight times in a cycle, and the derived-inputs group is
-- taken whole or not at all.
use vorsprung_logger.Base.{
  ℕ, zero, suc, ◌+◌, ◌-◌, ◌%◌, ◌≤◌, ◌≡◌, ◌≢◌, refl, sym, ap, ◌∙◌, ◌⊎◌, inl, inr, Bool, true, false,
  ltb, ◌==◌, if◌then◌else◌, Bool-cases, Option-cases, List, [], ◌∷◌, ◌++◌, map, append-nil,
  append_assoc, Option, none, some, length, get_elem?, get_or, arith,
}
use vorsprung_logger.Buffer.{Buffer}
use vorsprung_logger.Uds.Table.{Entry, is_group_member, uds_did_table}
use vorsprung_logger.Uds.Decode.{FloatOps}
use vorsprung_logger.Uds.Schedule.{
  uds_max_per_cycle, uds_did_count, Scheduler, read_uds_value, poll_uds, stage, commit, read_group,
  Cycle, serve_entry, serve_one, serve, start_cycle, process_uds,
}

-- The rows of the group.
abbrev pub members_of : List Entry → List Entry
members_of [] = []
members_of (e ∷ es) = if is_group_member e then e ∷ members_of es else members_of es

module _ (f : FloatOps) (Bus : Type 0) (read_did : ℕ → ℕ → Bus → Option (List ℕ) × Bus) where
  abbrev pub entries : List (Entry × f.Float) → List Entry
  entries staged = map (λ (m : Entry × f.Float). m.0) staged

  stage_members :
      (es : List Entry) (reads : ℕ) (staged : List (Entry × f.Float)) (bus : Bus)
      → ((stage f Bus read_did es reads staged bus).members ≡ none)
        ⊎ ((vs : List (Entry × f.Float)) × ((stage f Bus read_did es reads staged bus).members
              ≡ some (staged ++ vs))
            × (entries vs ≡ members_of es))
  unfolding stage
  stage_members [] reads staged bus = inr ([], ap some (sym (append-nil staged)), refl)
  stage_members (e ∷ es) reads staged bus = elim (Bool-cases (is_group_member e)) [
    | inr n ↦ rw (n, stage) (stage_members es reads staged bus)
    | inl y ↦ elim (Option-cases (read_uds_value f Bus read_did e bus).0) [
      | inl k ↦ inl (rw (y, k, stage))
      | inr (v, k) ↦
          let later =
            stage_members es (reads + 1) (staged ++ (e, v) ∷ [])
              (read_uds_value f Bus read_did e bus).1 in
          elim later [
            | inl m ↦ inl (rw (y, k, stage) m)
            | inr (vs, m, names) ↦ inr (
              (e, v) ∷ vs,
              rw (y, k, stage) (m ∙ ap some (append_assoc staged ((e, v) ∷ []) vs)),
              rw y (ap (λ es. e ∷ es) names),
            )
          ]
    ]
  ]

  -- `readGroup` leaves the slot as it was, or calls `add` with a value for every row of the group,
  -- in the order of the table.
  pub read_group-whole :
      (b : Buffer) (rpm_valid : Bool) (bus : Bus)
      → ((read_group f Bus read_did b rpm_valid bus).1 ≡ b)
        ⊎ ((vs : List (Entry × f.Float)) × ((read_group f Bus read_did b rpm_valid bus).1
              ≡ commit f Bus read_did vs b)
            × (entries vs ≡ members_of uds_did_table))
  unfolding read_group
  read_group-whole b false bus = inl refl
  read_group-whole b true bus = elim (stage_members uds_did_table 0 [] bus) [
    | inl m ↦ inl (rw m refl)
    | inr (vs, m, names) ↦ inr (vs, rw m refl, names)
  ]

  module _ (asked : Bus → ℕ)
      (counts : (did req : ℕ) (bus : Bus) → asked (read_did did req bus).1 ≡ asked bus + 1) where
    read_uds_value-asked :
        (e : Entry) (bus : Bus) → asked (read_uds_value f Bus read_did e bus).1 ≡ asked bus + 1
    unfolding read_uds_value
    read_uds_value-asked e bus = counts e.did e.req_id bus

    stage-asked :
        (es : List Entry) (reads : ℕ) (staged : List (Entry × f.Float)) (bus : Bus)
        → let s = stage f Bus read_did es reads staged bus in
          (asked s.bus + reads ≡ asked bus + s.reads) × (s.reads ≤ reads + length (members_of es))
    unfolding stage
    stage-asked [] reads staged bus = (refl, omega arith)
    stage-asked (e ∷ es) reads staged bus = elim (Bool-cases (is_group_member e)) [
      | inr n ↦ rw (n, stage) (stage-asked es reads staged bus)
      | inl y ↦ elim (Option-cases (read_uds_value f Bus read_did e bus).0) [
        | inl k ↦ rw (y, k, stage) (omega (arith, read_uds_value-asked e bus), omega arith)
        | inr (v, k) ↦
            let later =
              stage-asked es (reads + 1) (staged ++ (e, v) ∷ [])
                (read_uds_value f Bus read_did e bus).1 in
            rw (y, k, stage)
              (omega (arith, later.0, read_uds_value-asked e bus), omega (arith, later.1))
      ]
    ]

    serve_entry-asked :
        (i : ℕ) (o : Option Entry) (c : Cycle f Bus read_did)
        → c.budget ≢ 0
        → asked (serve_entry f Bus read_did i o c).bus + (serve_entry f Bus read_did i o c).budget
          ≡ asked c.bus + c.budget
    unfolding poll_uds
    serve_entry-asked i none c left = refl
    serve_entry-asked i (some e) c left = elim (Bool-cases (is_group_member e)) [
      | inl y ↦ rw y refl
      | inr n ↦ elim (Bool-cases (get_or c.wait i 0 == 0)) [
        | inr w ↦ rw (n, w) refl
        | inl z ↦ rw (n, z) (omega (arith, read_uds_value-asked e c.bus))
      ]
    ]

    serve-asked :
        (left rr n : ℕ) (c : Cycle f Bus read_did)
        → asked (serve f Bus read_did left rr n c).bus + (serve f Bus read_did left rr n c).budget
          ≡ asked c.bus + c.budget
    unfolding serve serve_one
    serve-asked zero rr n c = refl
    serve-asked (suc left) rr n c = elim (Bool-cases (c.budget == 0)) [
      | inl z ↦ rw z refl
      | inr nz ↦
          let i = (rr + n) % uds_did_count in
          let one = serve_entry-asked i (get_elem? uds_did_table i) c (λ e. cc (rw e at nz)) in
          rw nz (serve-asked left rr (n + 1) (serve_one f Bus read_did i c) ∙ one)
    ]

    start_cycle-asked :
        (s : Scheduler) (b : Buffer) (rpm_valid : Bool) (bus : Bus)
        → let c = (start_cycle f Bus read_did s b rpm_valid bus).1 in
          asked c.bus + c.budget ≡ asked bus + uds_max_per_cycle
    unfolding start_cycle read_group
    start_cycle-asked s b rpm_valid bus = elim (Bool-cases (ltb 0 s.group_wait)) [
      | inl w ↦ rw w refl
      | inr due ↦ rw due (budgeted rpm_valid)
    ]
      where
        budgeted :
            (r : Bool)
            → let g = read_group f Bus read_did b r bus in
              asked g.2 + (uds_max_per_cycle - g.0) ≡ asked bus + uds_max_per_cycle
        budgeted false = refl
        budgeted true = omega (arith, stage-asked uds_did_table 0 [] bus)

    -- A call of `processUDS` asks the control units at most eight times.
    pub process_uds-asked :
        (s : Scheduler) (b : Buffer) (rpm_valid : Bool) (bus : Bus)
        → asked (process_uds f Bus read_did s b rpm_valid bus).2 ≤ asked bus + uds_max_per_cycle
    unfolding process_uds
    process_uds-asked s b rpm_valid bus =
        let (group_wait', c) = start_cycle f Bus read_did s b rpm_valid bus in
        omega (
          arith,
          serve-asked uds_did_count s.rr 0 (start_cycle f Bus read_did s b rpm_valid bus).1,
          start_cycle-asked s b rpm_valid bus,
        )
