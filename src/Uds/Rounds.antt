-- ===== src/Uds/Rounds.antt =====
-- The loop of `processUDS` (src/main.cpp) on its way to a row that is due.
use vorsprung_logger.Base.{
  ℕ, zero, suc, ◌+◌, ◌-◌, ◌%◌, ◌≤◌, ◌<◌, ◌≡◌, ◌≢◌, refl, sym, ap, ◌∙◌, ◌⊎◌, inl, inr, Bool, false,
  ltb, ◌==◌, Bool-cases, List, [], ◌∷◌, Option, none, some, length, get_elem?, get_or,
  get_or-set_ne, set, length-set, arith,
}
use mathlib.Core.Path.{subst}
use mathlib.Core.Option.{some-injective, none-ne-some}
use vorsprung_logger.Buffer.{Buffer}
use vorsprung_logger.Uds.Table.{Entry, is_group_member, uds_did_table}
use vorsprung_logger.Uds.Decode.{FloatOps}
use vorsprung_logger.Uds.Schedule.{
  Scheduler, age, read_uds_value, poll_uds, Cycle, serve_entry, serve_one, serve, start_cycle,
}
use vorsprung_logger.Uds.Kept.{serve-Kept}
use vorsprung_logger.Uds.Room.{read_group-Room}

pub inside : {A : Type 0} (xs : List A) (i : ℕ) (x : A) → get_elem? xs i ≡ some x → i < length xs
inside [] i x at = absurd (none-ne-some x at)
inside (y ∷ ys) zero x at = omega arith
inside (y ∷ ys) (suc i) x at = omega (arith, inside ys i x at)

-- The last loop counts every row down that is not of the group.
pub get_or-age :
    (es : List Entry) (wait : List ℕ) (i : ℕ) (e : Entry)
    → length wait ≡ length es
    → get_elem? es i ≡ some e
    → is_group_member e ≡ false
    → get_or (age es wait) i 0 ≡ get_or wait i 0 - 1
unfolding age
get_or-age [] wait i e long at single = absurd (none-ne-some e at)
get_or-age (x ∷ es) [] i e long at single = absurd (omega (arith, long))
get_or-age (x ∷ es) (w ∷ wait) zero e long at single =
    rw (ap is_group_member (some-injective x e at) ∙ single) refl
get_or-age (x ∷ es) (w ∷ wait) (suc i) e long at single =
    get_or-age es wait i e (omega (arith, long)) at single

pub length-age :
    (es : List Entry) (wait : List ℕ) → length wait ≡ length es → length (age es wait) ≡ length es
unfolding age
length-age [] wait long = long
length-age (x ∷ es) [] long = long
length-age (x ∷ es) (w ∷ wait) long = ap suc (length-age es wait (omega (arith, long)))

module _ (f : FloatOps) (Bus : Type 0) (read_did : ℕ → ℕ → Bus → Option (List ℕ) × Bus) where
  -- The body of the loop leaves the variables as they were, or serves the row.
  data Serves (j : ℕ) (c : Cycle f Bus read_did) : Cycle f Bus read_did → Type 0 where
    passes : Serves j c c
    served :
        (v : ℕ) (c' : Cycle f Bus read_did)
        → get_or c.wait j 0 ≡ 0
        → c'.budget ≡ c.budget - 1
        → c'.wait ≡ set c.wait j v
        → c'.last_served ≡ some j
        → Serves j c c'

  serve_entry-Serves :
      (j : ℕ) (o : Option Entry) (c : Cycle f Bus read_did)
      → Serves j c (serve_entry f Bus read_did j o c)
  unfolding poll_uds
  serve_entry-Serves j none c = passes
  serve_entry-Serves j (some e) c = elim (Bool-cases (is_group_member e)) [
    | inl y ↦ rw y passes
    | inr n ↦ elim (Bool-cases (get_or c.wait j 0 == 0)) [
      | inr w ↦ rw (n, w) passes
      | inl z ↦ rw (n, z) (served e.interval_cycles _ (ground (arith, z)) refl refl refl)
    ]
  ]

  -- A row that waits goes on waiting while the others are served.
  Serves-wait :
      (i j : ℕ) (c c' : Cycle f Bus read_did)
      → Serves j c c'
      → (length c'.wait ≡ length c.wait)
        × ((get_or c.wait i 0 ≢ 0) ⊎ (j ≢ i) → get_or c'.wait i 0 ≡ get_or c.wait i 0)
  Serves-wait i j c _ passes = (refl, λ h. refl)
  Serves-wait i j c _ (served v c' due budget wait last) = (
    ap (λ (l : List ℕ). length l) wait ∙ length-set c.wait j v,
    λ h.
        ap (λ (l : List ℕ). get_or l i 0) wait
        ∙ get_or-set_ne c.wait j i v 0 (elim h [
          | inl waits ↦ λ e. waits (subst (λ m. get_or c.wait m 0 ≡ 0) e due)
          | inr other ↦ other
        ]),
  )

  -- The loop has not come to the row `i`, which is `k` rows on: it has served one row for each unit of
  -- the budget before.
  pub record Passed (rr n k i : ℕ) (c c' : Cycle f Bus read_did) : Type 0 where
    pub still_due : get_or c'.wait i 0 ≡ 0
    pub long : length c'.wait ≡ 51
    pub behind :
        ((c.budget ≡ 0) × (c'.last_served ≡ c.last_served))
        ⊎ ((j : ℕ) × (c'.last_served ≡ some ((rr + j) % 51)) × (n + c.budget ≤ j + 1) × (j < k))

  -- A round that serves another row, and what then comes to pass.
  Passed-behind :
      (rr n k i : ℕ) (c d c' : Cycle f Bus read_did)
      → n < k
      → c.budget ≢ 0
      → Serves ((rr + n) % 51) c d
      → Passed rr (n + 1) k i d c'
      → Passed rr n k i c c'
  Passed-behind rr n k i c _ c' near left passes p = record {
    still_due = p.still_due;
    long = p.long;
    behind = elim p.behind [
      | inl (none_left, same) ↦ absurd (left none_left)
      | inr (j, last, far, close) ↦ inr (j, last, omega (arith, far), close)
    ];
  }
  Passed-behind rr n k i c _ c' near left (served v d due budget wait last) p = record {
    still_due = p.still_due;
    long = p.long;
    behind = elim p.behind [
      | inl (none_left, same) ↦ inr (n, same ∙ last, omega (arith, none_left, budget), near)
      | inr (j, at, far, close) ↦ inr (j, at, omega (arith, far, budget, left), close)
    ];
  }

  module _ (Asked : Bus → Type 0)
      (keeps : (did req : ℕ) (bus : Bus) → Asked bus → Asked (read_did did req bus).1) (i : ℕ)
      (e : Entry) (at : get_elem? uds_did_table i ≡ some e) (single : is_group_member e ≡ false)
      (asks : (bus : Bus) → Asked (read_did e.did e.req_id bus).1) where
    serve_entry-asks :
        (o : Option Entry) (c : Cycle f Bus read_did)
        → o ≡ some e
        → get_or c.wait i 0 ≡ 0
        → Asked (serve_entry f Bus read_did i o c).bus
    unfolding poll_uds read_uds_value
    serve_entry-asks none c here due = absurd (none-ne-some e here)
    serve_entry-asks (some x) c here due =
        subst (λ o. Asked (serve_entry f Bus read_did i o c).bus) (sym here)
          (rw (single, due) (asks c.bus))

    pub serve-Passed :
        (left rr n k : ℕ) (c : Cycle f Bus read_did)
        → n + left ≡ 51
        → n ≤ k
        → k < 51
        → (rr + k) % 51 ≡ i
        → length c.wait ≡ 51
        → get_or c.wait i 0 ≡ 0
        → Asked (serve f Bus read_did left rr n c).bus
          ⊎ Passed rr n k i c (serve f Bus read_did left rr n c)
    unfolding serve serve_one
    serve-Passed zero rr n k c rounds near below here long due = absurd (omega arith)
    serve-Passed (suc left) rr n k c rounds near below here long due =
        elim (Bool-cases (c.budget == 0)) [
          | inl z ↦ rw z (
              inr (record { still_due = due; long = long; behind = inl (ground (arith, z), refl) }))
          | inr nz ↦
              let j = (rr + n) % 51 in
              let d = serve_entry f Bus read_did j (get_elem? uds_did_table j) c in
              let step = serve_entry-Serves j (get_elem? uds_did_table j) c in
              let (long', same) = Serves-wait i j c d step in
              elim (Bool-cases (n == k)) [
                | inl now ↦
                    let arrived : j ≡ i = ap (λ m. (rr + m) % 51) (ground (arith, now)) ∙ here in
                    let asked : Asked d.bus =
                      subst
                        (λ m.
                          Asked (serve_entry f Bus read_did m (get_elem? uds_did_table m) c).bus)
                        (sym arrived) (serve_entry-asks (get_elem? uds_did_table i) c at due) in
                    rw nz (inl (serve-Kept f Bus read_did Asked keeps left rr (n + 1) d asked))
                | inr before ↦
                    let close : n < k = ground (arith, near, before) in
                    let other : j ≢ i = λ e. omega (arith, e, here, close, below) in
                    let rest =
                      serve-Passed left rr (n + 1) k d (omega (arith, rounds))
                        (omega (arith, close)) below here (long' ∙ long) (same (inr other) ∙ due) in
                    rw nz (elim rest [
                      | inl asked ↦ inl asked
                      | inr p ↦ inr (
                          Passed-behind rr n k i c d (serve f Bus read_did left rr (n + 1) d) close
                            (λ z. cc (rw z at nz)) step p)
                    ])
              ]
        ]

    pub serve-wait :
        (left rr n : ℕ) (c : Cycle f Bus read_did)
        → get_or c.wait i 0 ≢ 0
        → (get_or (serve f Bus read_did left rr n c).wait i 0 ≡ get_or c.wait i 0)
          × (length (serve f Bus read_did left rr n c).wait ≡ length c.wait)
    unfolding serve serve_one
    serve-wait zero rr n c waits = (refl, refl)
    serve-wait (suc left) rr n c waits = elim (Bool-cases (c.budget == 0)) [
      | inl z ↦ rw z (refl, refl)
      | inr nz ↦
          let j = (rr + n) % 51 in
          let d = serve_entry f Bus read_did j (get_elem? uds_did_table j) c in
          let (long, same) =
            Serves-wait i j c d (serve_entry-Serves j (get_elem? uds_did_table j) c) in
          let (later, long') =
            serve-wait left rr (n + 1) d (λ z. waits (sym (same (inl waits)) ∙ z)) in
          rw nz (later ∙ same (inl waits), long' ∙ long)
    ]

    pub start_cycle-begins :
        (s : Scheduler) (b : Buffer) (rpm_valid : Bool) (bus : Bus)
        → let c = (start_cycle f Bus read_did s b rpm_valid bus).1 in
          (c.wait ≡ s.wait) × (c.last_served ≡ none) × (3 ≤ c.budget)
    unfolding start_cycle
    start_cycle-begins s b rpm_valid bus =
        let few = (read_group-Room f Bus read_did b rpm_valid bus).0 in
        elim (Bool-cases (ltb 0 s.group_wait)) [
          | inl w ↦ rw w (refl, refl, omega arith)
          | inr due ↦ rw due (refl, refl, omega (arith, few))
        ]
