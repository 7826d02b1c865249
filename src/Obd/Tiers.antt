-- ===== src/Obd/Tiers.antt =====
-- The cursors of `processOBD` (src/main.cpp) stay inside their tiers.
use vorsprung_logger.Base.{
  ℕ, zero, suc, ◌+◌, ◌-◌, ◌*◌, ◌%◌, ◌≤◌, ◌<◌, ◌≡◌, refl, sym, ap, ◌∙◌, ◌≢◌, ◌⊎◌, inl, inr, true,
  false, ltb, ◌==◌, Bool-cases, List, [], ◌∷◌, length, get_or, get_or-set_ne, set, arith,
  length-set, ==_iff,
}
use mathlib.Core.Path.{subst}
use vorsprung_logger.Obd.{PidPollingInfo, row, Engine, Polling, Place, enter_tier}

-- The rows have the tiers of the source, and the memory behind them is not taken for a row of the
-- third.
pub record IsTable (cells : List PidPollingInfo) : Type 0 where
  pub low : (i : ℕ) → i < 4 → (row cells i).tier ≡ 1
  pub mid : (i : ℕ) → 4 ≤ i → i < 6 → (row cells i).tier ≡ 2
  pub high : (i : ℕ) → 6 ≤ i → i < 8 → (row cells i).tier ≡ 3
  pub behind : (row cells 8).tier ≢ 3

-- The two cursors are at most at the end of their tiers.
pub record IsIdx (idx : List ℕ) : Type 0 where
  pub three : length idx ≡ 3
  pub second : get_or idx 1 0 ≤ 2
  pub third : get_or idx 2 0 ≤ 2

-- Where the loop can be.
pub record IsAt (i tier : ℕ) : Type 0 where
  pub one : 1 ≤ tier
  pub top : tier ≤ 3
  pub below : i ≤ 2 * tier + 2
  pub above : 4 * tier ≤ i + 6

-- A row is polled in its own tier, or it begins one of the two slower tiers.
tier-cases :
    (cells : List PidPollingInfo) (i tier : ℕ)
    → IsTable cells
    → IsAt i tier
    → i < 8
    → (((row cells i).tier ≤ tier) × (i ≤ 2 * tier + 1))
      ⊎ (((i ≡ 4) × (tier ≡ 1)) ⊎ ((i ≡ 6) × (tier ≡ 2)))
tier-cases cells i tier t at inside = elim (Bool-cases (ltb i 4)) [
  | inl e ↦ let e' = t.low i (ground arith) in ground arith
  | inr e ↦ elim (Bool-cases (ltb i 6)) [
    | inl d ↦ let e' = t.mid i (ground arith) (ground arith) in ground arith
    | inr d ↦ let e' = t.high i (ground arith) inside in ground arith
  ]
]

get_or-set_le : (idx : List ℕ) (k v m : ℕ) → v ≤ m → get_or (set idx k v) k 0 ≤ m
get_or-set_le [] k v m h = omega arith
get_or-set_le (x ∷ xs) zero v m h = h
get_or-set_le (x ∷ xs) (suc k) v m h = get_or-set_le xs k v m h

set-set : (idx : List ℕ) (k v w : ℕ) → set (set idx k v) k w ≡ set idx k w
set-set [] k v w = refl
set-set (x ∷ xs) zero v w = refl
set-set (x ∷ xs) (suc k) v w = ap (λ l. x ∷ l) (set-set xs k v w)

-- A cursor after a write of at most 2.
get_or-set_2 :
    (idx : List ℕ) (k j v : ℕ) → get_or idx j 0 ≤ 2 → v ≤ 2 → get_or (set idx k v) j 0 ≤ 2
get_or-set_2 idx k j v h small = elim (Bool-cases (k == j)) [
  | inl e ↦
      subst (λ m. get_or (set idx m v) j 0 ≤ 2) (sym ((==_iff k j).0 e))
        (get_or-set_le idx j v 2 small)
  | inr e ↦ rw (get_or-set_ne idx k j v 0 (ground arith)) h
]

set-IsIdx : (idx : List ℕ) (k v : ℕ) → IsIdx idx → v ≤ 2 → IsIdx (set idx k v)
set-IsIdx idx k v h small = record {
  three = length-set idx k v ∙ h.three;
  second = get_or-set_2 idx k 1 v h.second small;
  third = get_or-set_2 idx k 2 v h.third small;
}

module _ (engine : Engine) where
  pub record IsPolling (s : Polling engine) : Type 0 where
    pub table : IsTable s.cells
    pub idx : IsIdx s.idx

  -- What `enter_tier` at `i` makes of it.
  pub record IsPlaced (i tier : ℕ) (s : Polling engine) (p : Place engine) : Type 0 where
    pub polling : IsPolling p.state
    pub next : IsAt (p.index + 1) p.tier
    pub inside : p.index < 8
    pub ahead : i ≤ p.index
    pub not_faster : tier ≤ p.tier
    pub same_bus : p.state.bus ≡ s.bus
    pub same_buffer : p.state.buffer ≡ s.buffer

  pub record IsMissed (i tier : ℕ) (s : Polling engine) (p : Place engine) : Type 0 where
    pub polling : IsPolling p.state
    pub at : IsAt p.index p.tier
    pub slower : tier < p.tier
    pub forth : i ≤ p.index
    pub same_bus : p.state.bus ≡ s.bus
    pub same_buffer : p.state.buffer ≡ s.buffer

  -- What `enter_tier` makes of the place.
  abbrev pub Entered : ℕ → ℕ → Polling engine → Place engine → Type 0
  Entered i tier s p =
      ((p.here ≡ true) × IsPlaced i tier s p) ⊎ ((p.here ≡ false) × IsMissed i tier s p)

  -- The state behind a move of the cursor of tier `n` to `step`.
  abbrev moved : ℕ → ℕ → ℕ → Polling engine → Polling engine
  moved tier n step s = record s { idx = set (set s.idx (tier - 1) 0) (n - 1) step }

  enter_tier-stay :
      (i tier : ℕ) (s : Polling engine)
      → (row s.cells i).tier ≤ tier
      → enter_tier engine i tier s ≡ record { index = i; tier = tier; here = true; state = s }
  unfolding enter_tier
  enter_tier-stay i tier s h = ground arith

  enter_tier-hit :
      (i tier n step : ℕ) (s : Polling engine)
      → (row s.cells i).tier ≡ n
      → tier < n
      → get_or (set s.idx (tier - 1) 0) (n - 1) 0 ≡ step
      → (i + step) % 256 ≡ i + step
      → (row s.cells (i + step)).tier ≡ n
      → enter_tier engine i tier s
        ≡ record { index = i + step; tier = n; here = true; state = moved tier n (step + 1) s }
  unfolding enter_tier
  enter_tier-hit i tier n step s e slower f g h = rw (e, f, g, h) (ground arith)

  enter_tier-miss :
      (i tier n step : ℕ) (s : Polling engine)
      → (row s.cells i).tier ≡ n
      → tier < n
      → get_or (set s.idx (tier - 1) 0) (n - 1) 0 ≡ step
      → (i + step) % 256 ≡ i + step
      → (row s.cells (i + step)).tier ≢ n
      → enter_tier engine i tier s ≡ record {
        index = i + step;
        tier = n;
        here = false;
        state = record s { idx = set (set (set s.idx (tier - 1) 0) (n - 1) (step + 1)) (n - 1) 0 };
      }
  unfolding enter_tier
  enter_tier-miss i tier n step s e slower f g h = rw (e, f, g) (ground arith)

  -- A slower tier is entered at its cursor, or missed when the cursor is at its end.
  Entered-tier :
      (i tier n : ℕ) (s : Polling engine)
      → IsPolling s
      → (row s.cells i).tier ≡ n
      → tier < n
      → i ≡ 2 * n
      → n ≤ 3
      → get_or (set s.idx (tier - 1) 0) (n - 1) 0 ≤ 2
      → ((step : ℕ) → step < 2 → (i + step < 8) × ((row s.cells (i + step)).tier ≡ n))
      → (row s.cells (i + 2)).tier ≢ n
      → Entered i tier s (enter_tier engine i tier s)
  Entered-tier i tier n s good e slower place top small rows end =
      let step = get_or (set s.idx (tier - 1) 0) (n - 1) 0 in
      let cleared = set-IsIdx s.idx (tier - 1) 0 good.idx (omega arith) in
      elim (Bool-cases (ltb step 2)) [
        | inl d ↦
            let r = rows step (ground arith) in
            rw (enter_tier-hit i tier n step s e slower refl (omega arith) r.1) (
              inl (
                refl,
                record {
                  polling = record {
                    table = good.table;
                    idx =
                        set-IsIdx (set s.idx (tier - 1) 0) (n - 1) (step + 1) cleared
                          (ground arith);
                  };
                  next = record {
                    one = omega arith;
                    top = top;
                    below = ground arith;
                    above = omega arith;
                  };
                  inside = r.0;
                  ahead = omega arith;
                  not_faster = omega arith;
                  same_bus = refl;
                  same_buffer = refl;
                },
              ))
        | inr d ↦
            let two : step ≡ 2 = ground arith in
            rw (enter_tier-miss i tier n 2 s e slower two (omega arith) end) (
              inr (
                refl,
                record {
                  polling = record {
                    table = good.table;
                    idx =
                        rw (set-set (set s.idx (tier - 1) 0) (n - 1) 3 0)
                          (set-IsIdx (set s.idx (tier - 1) 0) (n - 1) 0 cleared (omega arith));
                  };
                  at = record {
                    one = omega arith;
                    top = top;
                    below = omega arith;
                    above = omega arith;
                  };
                  slower = slower;
                  forth = omega arith;
                  same_bus = refl;
                  same_buffer = refl;
                },
              ))
      ]

  pub enter_tier-Entered :
      (i tier : ℕ) (s : Polling engine)
      → IsPolling s
      → IsAt i tier
      → i < 8
      → Entered i tier s (enter_tier engine i tier s)
  enter_tier-Entered i tier s good at inside =
      elim (tier-cases s.cells i tier good.table at inside) [
        | inl (own, early) ↦ rw (enter_tier-stay i tier s own) (
            inl (
              refl,
              record {
                polling = good;
                next = record {
                  one = at.one;
                  top = at.top;
                  below = omega arith;
                  above = omega (arith, at.above);
                };
                inside = inside;
                ahead = omega arith;
                not_faster = omega arith;
                same_bus = refl;
                same_buffer = refl;
              },
            ))
        | inr (inl (four, one)) ↦
            rw (four, one)
              (Entered-tier 4 1 2 s good (good.table.mid 4 (omega arith) (omega arith))
                (omega arith) refl (omega arith)
                (rw (get_or-set_ne s.idx 0 1 0 0 (λ e. omega (arith, e))) good.idx.second)
                (λ step less. (omega arith, good.table.mid (4 + step) (omega arith) (omega arith)))
                (λ e. omega (arith, e, good.table.high 6 (omega arith) (omega arith))))
        | inr (inr (six, two)) ↦
            rw (six, two)
              (Entered-tier 6 2 3 s good (good.table.high 6 (omega arith) (omega arith))
                (omega arith) refl (omega arith)
                (rw (get_or-set_ne s.idx 1 2 0 0 (λ e. omega (arith, e))) good.idx.third)
                (λ step less. (omega arith, good.table.high (6 + step) (omega arith) (omega arith)))
                good.table.behind)
      ]
