-- ===== src/Uds/Room.antt =====
-- The room that `processUDS` (src/main.cpp) takes in a slot: a value for each of the eight reads of
-- its budget at most.
use vorsprung_logger.Base.{
  ℕ, zero, suc, ◌+◌, ◌-◌, ◌*◌, ◌%◌, ◌≤◌, ◌≡◌, ◌≢◌, refl, inl, inr, Bool, true, false, ltb, ◌==◌,
  Bool-cases, Option-cases, List, [], ◌∷◌, ◌++◌, Option, none, some, length, length-append,
  get_elem?, get_or, arith,
}
use mathlib.Core.Path.{subst}
use mathlib.Core.Option.{some-injective, none-ne-some}
use vorsprung_logger.Buffer.{Buffer}
use vorsprung_logger.Buffer.Room.{Room, Room-none, Room-add, Room-weaken, Room-trans}
use vorsprung_logger.Uds.Table.{Entry, is_group_member, uds_did_table}
use vorsprung_logger.Uds.Decode.{FloatOps}
use vorsprung_logger.Uds.Schedule.{
  uds_did_count, Scheduler, read_uds_value, add_read, poll_uds, stage, commit, commit_members,
  read_group, Cycle, serve_entry, serve_one, serve, start_cycle, process_uds,
}
use vorsprung_logger.Uds.Budget.{members_of}

module _ (f : FloatOps) (Bus : Type 0) (read_did : ℕ → ℕ → Bus → Option (List ℕ) × Bus) where
  -- The group attempts no more reads than it has rows, and stages no more values than reads.
  stage-reads :
      (es : List Entry) (reads : ℕ) (staged : List (Entry × f.Float)) (bus : Bus)
      → length staged ≤ reads
      → let s = stage f Bus read_did es reads staged bus in
        (s.reads ≤ reads + length (members_of es))
        × ((vs : List (Entry × f.Float)) → s.members ≡ some vs → length vs ≤ s.reads)
  unfolding stage
  stage-reads [] reads staged bus le =
      (omega arith, λ vs e. subst (λ l. length l ≤ reads) (some-injective staged vs e) le)
  stage-reads (e ∷ es) reads staged bus le = elim (Bool-cases (is_group_member e)) [
    | inr n ↦ rw (n, stage) (stage-reads es reads staged bus le)
    | inl y ↦ elim (Option-cases (read_uds_value f Bus read_did e bus).0) [
      | inl k ↦ rw (y, k, stage) (omega arith, λ vs e. absurd (none-ne-some vs e))
      | inr (v, k) ↦
          let later =
            stage-reads es (reads + 1) (staged ++ (e, v) ∷ [])
              (read_uds_value f Bus read_did e bus).1
              (omega (arith, length-append staged ((e, v) ∷ []), le)) in
          rw (y, k, stage) (omega (arith, later.0), later.1)
    ]
  ]

  commit-Room :
      (vs : List (Entry × f.Float)) (b : Buffer)
      → Room (8 * length vs) b (commit f Bus read_did vs b)
  unfolding commit
  commit-Room [] b = Room-none b
  commit-Room ((e, v) ∷ vs) b =
      Room-weaken (omega arith) (Room-trans (Room-add _ _ _ _ b) (commit-Room vs _))

  add_read-Room :
      (e : Entry) (v : Option f.Float) (b : Buffer) → Room 8 b (add_read f Bus read_did e v b)
  add_read-Room e none b = Room-weaken (omega arith) (Room-none b)
  add_read-Room e (some v) b = Room-add _ _ _ _ b

  -- What has been added is paid for by the budget.
  Spent : Buffer → Cycle f Bus read_did → Type 0
  Spent b c = (c.budget ≤ 8) × Room (8 * (8 - c.budget)) b c.buffer

  serve_entry-Spent :
      (b : Buffer) (i : ℕ) (o : Option Entry) (c : Cycle f Bus read_did)
      → c.budget ≢ 0
      → Spent b c
      → Spent b (serve_entry f Bus read_did i o c)
  unfolding Spent poll_uds
  serve_entry-Spent b i none c left spent = spent
  serve_entry-Spent b i (some e) c left spent = elim (Bool-cases (is_group_member e)) [
    | inl y ↦ rw y spent
    | inr n ↦ elim (Bool-cases (get_or c.wait i 0 == 0)) [
      | inr w ↦ rw (n, w) spent
      | inl z ↦
          rw (n, z)
            (
              omega (arith, spent.0),
              Room-weaken (omega (arith, spent.0, left)) (
                  Room-trans spent.1
                    (add_read-Room e (read_uds_value f Bus read_did e c.bus).0 c.buffer)),
            )
    ]
  ]

  serve-Spent :
      (b : Buffer) (left rr n : ℕ) (c : Cycle f Bus read_did)
      → Spent b c
      → Spent b (serve f Bus read_did left rr n c)
  unfolding serve serve_one
  serve-Spent b zero rr n c spent = spent
  serve-Spent b (suc left) rr n c spent = elim (Bool-cases (c.budget == 0)) [
    | inl z ↦ rw z spent
    | inr nz ↦
        let i = (rr + n) % uds_did_count in
        rw nz (
          serve-Spent b left rr (n + 1) (serve_one f Bus read_did i c)
            (serve_entry-Spent b i (get_elem? uds_did_table i) c (λ e. cc (rw e at nz)) spent))
  ]

  commit_members-Room :
      (n : ℕ) (o : Option (List (Entry × f.Float))) (b : Buffer)
      → ((vs : List (Entry × f.Float)) → o ≡ some vs → length vs ≤ n)
      → Room (8 * n) b (commit_members f Bus read_did o b)
  commit_members-Room n none b h = Room-weaken (omega arith) (Room-none b)
  commit_members-Room n (some vs) b h = Room-weaken (omega (arith, h vs refl)) (commit-Room vs b)

  pub read_group-Room :
      (b : Buffer) (rpm_valid : Bool) (bus : Bus)
      → let g = read_group f Bus read_did b rpm_valid bus in (g.0 ≤ 5) × Room (8 * g.0) b g.1
  unfolding read_group
  read_group-Room b false bus = (omega arith, Room-none b)
  read_group-Room b true bus =
      let (few, staged) = stage-reads uds_did_table 0 [] bus (omega arith) in
      (omega (arith, few), commit_members-Room _ _ b staged)

  start_cycle-Spent :
      (s : Scheduler) (b : Buffer) (rpm_valid : Bool) (bus : Bus)
      → Spent b (start_cycle f Bus read_did s b rpm_valid bus).1
  unfolding Spent start_cycle
  start_cycle-Spent s b rpm_valid bus =
      let (few, room) = read_group-Room b rpm_valid bus in
      elim (Bool-cases (ltb 0 s.group_wait)) [
        | inl w ↦ rw w (omega arith, Room-weaken (omega arith) (Room-none b))
        | inr due ↦ rw due (omega arith, Room-weaken (omega (arith, few)) room)
      ]

  pub process_uds-Room :
      (s : Scheduler) (b : Buffer) (rpm_valid : Bool) (bus : Bus)
      → Room 64 b (process_uds f Bus read_did s b rpm_valid bus).1
  unfolding Spent process_uds
  process_uds-Room s b rpm_valid bus =
      let (few, room) =
        serve-Spent b uds_did_count s.rr 0 (start_cycle f Bus read_did s b rpm_valid bus).1
          (start_cycle-Spent s b rpm_valid bus) in
      Room-weaken (omega arith) room
