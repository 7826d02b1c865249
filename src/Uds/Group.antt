-- ===== src/Uds/Group.antt =====
-- The derived-inputs group in the slot (`readGroup` of src/main.cpp): all of it or nothing.
use vorsprung_logger.Base.{
  ℕ, ◌+◌, ◌*◌, ◌<◌, ◌≡◌, refl, ap, ◌∙◌, ◌⊎◌, inl, inr, Bool, List, [], ◌∷◌, ◌++◌, length, arith,
}
use vorsprung_logger.Buffer.{Buffer, offset, element_float_d2}
use vorsprung_logger.Buffer.Elements.{word_bytes}
use vorsprung_logger.Buffer.Room.{Call, add_all, bytes_of, add_all-fits}
use vorsprung_logger.Base.{Option}
use vorsprung_logger.Uds.Table.{Entry, uds_did_table}
use vorsprung_logger.Uds.Decode.{FloatOps}
use vorsprung_logger.Uds.Schedule.{commit, read_group}
use vorsprung_logger.Uds.Budget.{members_of, entries, read_group-whole}

module _ (f : FloatOps) (Bus : Type 0) (read_did : ℕ → ℕ → Bus → Option (List ℕ) × Bus) where
  -- The element of each value, in the order of the values.
  abbrev pub calls_of : List (Entry × f.Float) → List Call
  calls_of [] = []
  calls_of ((e, v) ∷ vs) =
      record {
        pid = e.synthetic_pid;
        type = element_float_d2;
        cells = word_bytes 4 (f.bits v);
        count = 1;
      }
      ∷ calls_of vs

  commit-add_all :
      (vs : List (Entry × f.Float)) (b : Buffer)
      → commit f Bus read_did vs b ≡ add_all (calls_of vs) b
  unfolding commit
  commit-add_all [] b = refl
  commit-add_all ((e, v) ∷ vs) b = commit-add_all vs _

  length-calls_of :
      (vs : List (Entry × f.Float))
      → (length (bytes_of (calls_of vs)) ≡ 8 * length (entries f Bus read_did vs))
        × (length (calls_of vs) ≡ length (entries f Bus read_did vs))
  length-calls_of [] = (refl, refl)
  length-calls_of ((e, v) ∷ vs) =
      let (bytes, count) = length-calls_of vs in (omega (arith, bytes), omega (arith, count))

  -- With 40 bytes of room and a count below 251, the group stands in the slot as a whole or not at
  -- all: `readGroup` leaves the slot as it was, or puts behind its content an element for every row of the group, in the
  -- order of the table, and counts them.
  pub read_group_complete :
      (b : Buffer) (rpm_valid : Bool) (bus : Bus)
      → offset b + 40 < 256
      → b.total + 5 < 256
      → let b' = (read_group f Bus read_did b rpm_valid bus).1 in
        (b' ≡ b)
        ⊎ ((vs : List (Entry × f.Float)) × (entries f Bus read_did vs ≡ members_of uds_did_table)
            × (b'.used ≡ b.used ++ bytes_of (calls_of vs))
            × (b'.total ≡ b.total + length (members_of uds_did_table)))
  read_group_complete b rpm_valid bus room few =
      elim (read_group-whole f Bus read_did b rpm_valid bus) [
        | inl same ↦ inl same
        | inr (vs, whole, names) ↦
            let count : length (entries f Bus read_did vs) ≡ 5 =
              ap (λ (es : List Entry). length es) names in
            let (bytes, calls) = length-calls_of vs in
            let (used, total) =
              add_all-fits (calls_of vs) b (omega (arith, bytes, count, room))
                (omega (arith, calls, count, few)) in
            let made = whole ∙ commit-add_all vs b in
            inr (
              vs,
              names,
              ap (λ (c : Buffer). c.used) made ∙ used,
              ap (λ (c : Buffer). c.total) made ∙ omega (arith, total, calls, count),
            )
      ]
