-- ===== src/Telemetry/Order.antt =====
-- `spoolQueuedBuffers` empties the queue, the oldest slot first (src/main.cpp).
use vorsprung_logger.Base.{
  ℕ, zero, suc, ◌+◌, ◌≤◌, ◌≡◌, refl, ap, ◌∙◌, ◌⊎◌, inl, inr, true, ltb, List, [], ◌∷◌, Option, none,
  some, get_elem?, length, Bool-cases, arith, if◌then◌else◌,
}
use vorsprung_logger.Time.Anchor.{Anchor}
use vorsprung_logger.Store.{Store}
use vorsprung_logger.Store.Floats.{Format}
use vorsprung_logger.Buffer as Buf
use vorsprung_logger.Buffer.{empty, filling, filled, locked, Buffer}
use vorsprung_logger.Slots.Clear.{get_elem?-modify}
use vorsprung_logger.Slots.{Slots, modify, is_filled, lock, free, max_timestamp, get_oldest}
use vorsprung_logger.Slots.Pick.{Unbeaten, IsBest, Answers, get_oldest_lem}
use vorsprung_logger.Spool.{World}
use vorsprung_logger.Spool.Media.{Card}
use vorsprung_logger.Telemetry.Queue.{Queue, spool_buffer, spool_slot, queue_round, spool_queued}

-- The filled slots of a list.
abbrev pub count_filled : List Buffer → ℕ
count_filled [] = 0
count_filled (b ∷ bs) = (if is_filled b then 1 else 0) + count_filled bs

-- A slot is locked, packed and freed.
abbrev taken_out : ℕ → List Buffer → List Buffer
taken_out i bs = modify i Buf.purge (modify i lock bs)

count_filled-taken_out :
    (bs : List Buffer) (i : ℕ) (b : Buffer)
    → get_elem? bs i ≡ some b
    → b.state ≡ filled
    → count_filled (taken_out i bs) + 1 ≡ count_filled bs
unfolding Buf.purge
count_filled-taken_out [] i b h f = cc h
count_filled-taken_out (x ∷ bs) zero b h f =
    let same : x ≡ b = cc h in
    let full : x.state ≡ filled = ap (λ (y : Buffer). y.state) same ∙ f in ground (arith, full)
count_filled-taken_out (x ∷ bs) (suc i) b h f = omega (arith, count_filled-taken_out bs i b h f)

Unbeaten-taken_out :
    (ts : ℕ) (bs : List Buffer) (i : ℕ) → Unbeaten ltb ts bs → Unbeaten ltb ts (taken_out i bs)
unfolding Buf.purge
Unbeaten-taken_out ts [] i h = h
Unbeaten-taken_out ts (b ∷ bs) zero h = (λ f. cc f, h.1)
Unbeaten-taken_out ts (b ∷ bs) (suc i) h = (h.0, Unbeaten-taken_out ts bs i h.1)

Unbeaten-at :
    (ts : ℕ) (bs : List Buffer) (i : ℕ) (b : Buffer)
    → Unbeaten ltb ts bs
    → get_elem? bs i ≡ some b
    → b.state ≡ filled
    → ts ≤ b.timestamp
Unbeaten-at ts [] i b h e f = cc e
Unbeaten-at ts (x ∷ bs) zero b h e f =
    let same : x ≡ b = cc e in
    let full : x.state ≡ filled = ap (λ (y : Buffer). y.state) same ∙ f in
    let late : ts ≤ x.timestamp = ground (arith, h.0 full) in
    ground (arith, late, ap (λ (y : Buffer). y.timestamp) same)
Unbeaten-at ts (x ∷ bs) (suc i) b h e f = Unbeaten-at ts bs i b h.1 e f

oldest_cases :
    (m : Slots)
    → ((get_oldest m ≡ (none, m)) × Unbeaten ltb max_timestamp m.slots)
      ⊎ ((i : ℕ) × (get_oldest m ≡ (some i, record m { slots = modify i lock m.slots }))
          × IsBest ltb m.slots max_timestamp i)
oldest_cases m = split (get_oldest m) (get_oldest_lem m)
  where
    split :
        (r : Option ℕ × Slots)
        → Answers ltb max_timestamp m r
        → ((r ≡ (none, m)) × Unbeaten ltb max_timestamp m.slots)
          ⊎ ((i : ℕ) × (r ≡ (some i, record m { slots = modify i lock m.slots }))
              × IsBest ltb m.slots max_timestamp i)
    split (none, m') (e, u) = inl (ap (λ (x : Slots). (none, x)) e, u)
    split (some i, m') (best, e) = inr (i, ap (λ (x : Slots). (some i, x)) e, best)

abbrev with_taken : Option Buffer → List Buffer → List Buffer
with_taken none bs = bs
with_taken (some b) bs = b ∷ bs

abbrev taken_round : (Slots → List Buffer) → Option ℕ × Slots → List Buffer
taken_round again (none, m) = []
taken_round again (some i, m) = with_taken (get_elem? m.slots i) (again (free i m))

-- The slots that the loop takes, in its order, as they are packed.
unfoldable pub taken : ℕ → Slots → List Buffer
taken zero m = []
taken (suc fuel) m = taken_round (taken fuel) (get_oldest m)

-- The records stand in the order of their capture, none before `lo`.
abbrev pub IsChron : ℕ → List Buffer → Type 0
IsChron lo [] = Unit {0}
IsChron lo (b ∷ bs) = (lo ≤ b.timestamp) × IsChron b.timestamp bs

taken_ends : (fuel : ℕ) (m : Slots) → get_oldest m ≡ (none, m) → taken (suc fuel) m ≡ []
unfolding taken
taken_ends fuel m e = ap (taken_round (taken fuel)) e

taken_goes_on :
    (fuel i : ℕ) (b : Buffer) (m m' : Slots)
    → get_oldest m ≡ (some i, m')
    → get_elem? m'.slots i ≡ some b
    → taken (suc fuel) m ≡ b ∷ taken fuel (free i m')
unfolding taken
taken_goes_on fuel i b m m' e f =
    ap (taken_round (taken fuel)) e ∙ ap (λ o. with_taken o (taken fuel (free i m'))) f

none_filled : (ts : ℕ) (bs : List Buffer) → count_filled bs ≤ 0 → Unbeaten ltb ts bs
none_filled ts [] h = tt
none_filled ts (b ∷ bs) h = (
  λ f. absurd (let full : is_filled b ≡ true = ground (arith, f) in ground (arith, full)),
  none_filled ts bs (omega arith),
)

module _ (c : Card) (show : Format → ℕ → List ℕ) (devid : List ℕ) (a : Anchor) (boot : ℕ) where
  abbrev pub spool_each : List Buffer → World c × Store → World c × Store
  spool_each [] out = out
  spool_each (b ∷ bs) out = spool_each bs (spool_buffer c show devid a boot b out)

  -- What the loop has done from the slots `m`: the records `bs` went to the spool, in the order of
  -- capture, and no filled slot is left that `getOldest` would find.
  pub record Emptied (bs : List Buffer) (lo : ℕ) (m : Slots) (out : World c × Store)
      (q : Queue c show devid a boot) : Type 0 where
    pub spooled : q.out ≡ spool_each bs out
    pub in_order : IsChron lo bs
    pub none_left : Unbeaten ltb max_timestamp q.slots.slots
    pub all_taken : length bs + count_filled q.slots.slots ≡ count_filled m.slots

  abbrev from : Slots → World c × Store → Queue c show devid a boot
  from m out = record { slots = m; out = out }

  queue_ends :
      (fuel : ℕ) (m : Slots) (out : World c × Store)
      → get_oldest m ≡ (none, m)
      → spool_queued c show devid a boot (suc fuel) (from m out) ≡ from m out
  unfolding spool_queued
  queue_ends fuel m out e =
      ap (queue_round c show devid a boot (spool_queued c show devid a boot fuel) out) e

  queue_goes_on :
      (fuel i : ℕ) (b : Buffer) (m m' : Slots) (out : World c × Store)
      → get_oldest m ≡ (some i, m')
      → get_elem? m'.slots i ≡ some b
      → spool_queued c show devid a boot (suc fuel) (from m out)
        ≡ spool_queued c show devid a boot fuel
            (from (free i m') (spool_buffer c show devid a boot b out))
  unfolding spool_queued
  queue_goes_on fuel i b m m' out e f =
      ap (queue_round c show devid a boot (spool_queued c show devid a boot fuel) out) e
      ∙ ap
          (λ (o : Option Buffer).
            spool_queued c show devid a boot fuel
              (from (free i m') (spool_slot c show devid a boot o out)))
          f

  spool_queued-Emptied :
      (fuel lo : ℕ) (m : Slots) (out : World c × Store)
      → count_filled m.slots ≤ fuel
      → Unbeaten ltb lo m.slots
      → Emptied (taken fuel m) lo m out (spool_queued c show devid a boot fuel (from m out))
  unfolding spool_queued taken free
  spool_queued-Emptied zero lo m out enough low = record {
    spooled = refl;
    in_order = tt;
    none_left = none_filled max_timestamp m.slots enough;
    all_taken = omega arith;
  }
  spool_queued-Emptied (suc fuel) lo m out enough low = elim (oldest_cases m) [
    | inl (e, u) ↦
        rw (taken_ends fuel m e, queue_ends fuel m out e)
          (record { spooled = refl; in_order = tt; none_left = u; all_taken = omega arith })
    | inr (i, e, best) ↦
        let b = lock best.buffer in
        let m' = record m { slots = modify i lock m.slots } in
        let there = get_elem?-modify lock m.slots i best.buffer best.at in
        let fewer = count_filled-taken_out m.slots i best.buffer best.at best.is_filled in
        let rest =
          spool_queued-Emptied fuel best.buffer.timestamp (free i m')
            (spool_buffer c show devid a boot b out) (omega (arith, fewer))
            (Unbeaten-taken_out best.buffer.timestamp m.slots i best.unbeaten) in
        rw (taken_goes_on fuel i b m m' e there, queue_goes_on fuel i b m m' out e there)
          (record {
            spooled = rest.spooled;
            in_order =
                (Unbeaten-at lo m.slots i best.buffer low best.at best.is_filled, rest.in_order);
            none_left = rest.none_left;
            all_taken = omega (arith, fewer, rest.all_taken);
          })
  ]

  count_filled_le : (bs : List Buffer) → count_filled bs ≤ length bs
  count_filled_le [] = omega arith
  count_filled_le (b ∷ bs) = elim (Bool-cases (is_filled b)) [
    | inl e ↦ rw e (omega (arith, count_filled_le bs))
    | inr e ↦ rw e (omega (arith, count_filled_le bs))
  ]

  none_before : (bs : List Buffer) → Unbeaten ltb 0 bs
  none_before [] = tt
  none_before (b ∷ bs) = (λ f. ground arith, none_before bs)

  -- As many rounds as there are slots are enough: the loop then ends by itself. It has spooled the
  -- filled slots in the order of their capture, each as it was packed, and has left none that
  -- `getOldest` finds.
  pub spool_queued_lem :
      (m : Slots) (out : World c × Store)
      → Emptied
          (taken (length m.slots) m)
          0
          m
          out
          (spool_queued c show devid a boot (length m.slots) (record { slots = m; out = out }))
  spool_queued_lem m out =
      spool_queued-Emptied (length m.slots) 0 m out (count_filled_le m.slots) (none_before m.slots)
