-- ===== src/Slots/Pick.antt =====
-- `getOldest` and `getNewest` find the filled slot with the least and with the greatest timestamp
-- (src/teleclient.cpp).
use vorsprung_logger.Base.{
  ℕ, suc, ◌+◌, ◌≡◌, refl, ap, ◌∙◌, ◌⊎◌, inl, inr, Bool, true, false, ltb, ◌&&◌, List, [], ◌∷◌,
  Option, none, some, get_elem?, All, arith, Bool-cases, and-eq-true,
}
use vorsprung_logger.Buffer.{filled, Buffer}
use vorsprung_logger.Slots.{
  Slots, modify, is_filled, pick, lock, lock_picked, max_timestamp, later, get_oldest, get_newest,
}

-- No filled slot of the list is better than `ts`.
abbrev pub Unbeaten : (ℕ → ℕ → Bool) → ℕ → List Buffer → Type 0
Unbeaten better ts = All (λ b. b.state ≡ filled → better b.timestamp ts ≡ false)

-- Slot `i` is filled, better than `ts`, and no filled slot is better than it.
pub record IsBest (better : ℕ → ℕ → Bool) (bs : List Buffer) (ts i : ℕ) : Type 0 where
  pub buffer : Buffer
  pub at : get_elem? bs i ≡ some buffer
  pub is_filled : buffer.state ≡ filled
  pub wins : better buffer.timestamp ts ≡ true
  pub unbeaten : Unbeaten better buffer.timestamp bs

passed :
    (b : Buffer) (wins : Bool) → (is_filled b && wins) ≡ false → b.state ≡ filled → wins ≡ false
passed b wins h f = ground arith

module _ (better : ℕ → ℕ → Bool) (irrefl : (a : ℕ) → better a a ≡ false)
    (loses : (a b c : ℕ) → better a c ≡ true → better b c ≡ false → better b a ≡ false)
    (trans : (a b c : ℕ) → better a b ≡ true → better b c ≡ true → better a c ≡ true) where
  asym : (a b : ℕ) → better a b ≡ true → better b a ≡ false
  asym a b h = loses a b b h (irrefl b)

  pub pick_lem :
      (bs : List Buffer) (n : ℕ) (best : Option ℕ) (ts : ℕ)
      → ((pick better bs n best ts ≡ best) × Unbeaten better ts bs)
        ⊎ ((j : ℕ) × (pick better bs n best ts ≡ some (n + j)) × IsBest better bs ts j)
  unfolding pick
  pick_lem [] n best ts = inl (refl, tt)
  pick_lem (b ∷ bs) n best ts = elim (Bool-cases (is_filled b && better b.timestamp ts)) [
    | inl w ↦
        let (full, wins) = and-eq-true (is_filled b) (better b.timestamp ts) w in
        elim (pick_lem bs (n + 1) (some n) b.timestamp) [
          | inl (e, u) ↦ inr (
            0,
            rw w (e ∙ ap some (omega arith)),
            record {
              buffer = b;
              at = refl;
              is_filled = ground arith;
              wins = wins;
              unbeaten = (λ _. irrefl b.timestamp, u);
            },
          )
          | inr (j, e, h) ↦ inr (
            suc j,
            rw w (e ∙ ap some (omega arith)),
            record {
              buffer = h.buffer;
              at = h.at;
              is_filled = h.is_filled;
              wins = trans h.buffer.timestamp b.timestamp ts h.wins wins;
              unbeaten = (λ _. asym h.buffer.timestamp b.timestamp h.wins, h.unbeaten);
            },
          )
        ]
    | inr l ↦ elim (pick_lem bs (n + 1) best ts) [
      | inl (e, u) ↦ inl (rw l e, (passed b (better b.timestamp ts) l, u))
      | inr (j, e, h) ↦ inr (
        suc j,
        rw l (e ∙ ap some (omega arith)),
        record {
          buffer = h.buffer;
          at = h.at;
          is_filled = h.is_filled;
          wins = h.wins;
          unbeaten = (
            λ f.
                loses h.buffer.timestamp b.timestamp ts h.wins
                  (passed b (better b.timestamp ts) l f),
            h.unbeaten,
          );
        },
      )
    ]
  ]

  -- The loop started with no slot picked.
  pub pick_empty :
      (bs : List Buffer) (ts : ℕ)
      → ((pick better bs 0 none ts ≡ none) × Unbeaten better ts bs)
        ⊎ ((j : ℕ) × (pick better bs 0 none ts ≡ some j) × IsBest better bs ts j)
  pick_empty bs ts = elim (pick_lem bs 0 none ts) [
    | inl h ↦ inl h
    | inr (j, e, h) ↦ inr (j, e ∙ ap some (omega arith), h)
  ]

-- The order that `getOldest` and `getFree` search by.
pub oldest_lem :
    (bs : List Buffer) (n : ℕ) (best : Option ℕ) (ts : ℕ)
    → ((pick ltb bs n best ts ≡ best) × Unbeaten ltb ts bs)
      ⊎ ((j : ℕ) × (pick ltb bs n best ts ≡ some (n + j)) × IsBest ltb bs ts j)
oldest_lem =
    pick_lem ltb (λ a. ground arith) (λ a b c h k. ground arith) (λ a b c h k. ground arith)

-- What `getOldest` and `getNewest` answer: the best of the filled slots, locked, and no other slot
-- is touched; or nothing, if no filled slot is better than the start of the search.
abbrev pub Answers : (ℕ → ℕ → Bool) → ℕ → Slots → Option ℕ × Slots → Type 0
Answers better ts m (none, m') = (m' ≡ m) × Unbeaten better ts m.slots
Answers better ts m (some i, m') =
    IsBest better m.slots ts i × (m' ≡ record m { slots = modify i lock m.slots })

lock_picked-Answers :
    (better : ℕ → ℕ → Bool) (m : Slots) (ts : ℕ) (r : Option ℕ)
    → ((r ≡ none) × Unbeaten better ts m.slots)
      ⊎ ((j : ℕ) × (r ≡ some j) × IsBest better m.slots ts j)
    → Answers better ts m (lock_picked r m)
lock_picked-Answers better m ts r (inl (e, u)) = rw e (refl, u)
lock_picked-Answers better m ts r (inr (j, e, h)) = rw e (h, refl)

-- `getOldest` locks the filled slot of least timestamp, and finds one unless every filled slot has
-- the greatest timestamp there is.
pub get_oldest_lem : (m : Slots) → Answers ltb max_timestamp m (get_oldest m)
unfolding get_oldest
get_oldest_lem m = lock_picked-Answers ltb m max_timestamp (pick ltb m.slots 0 none max_timestamp) (
    pick_empty ltb (λ a. ground arith) (λ a b c h k. ground arith) (λ a b c h k. ground arith)
      m.slots max_timestamp)

-- `getNewest` locks the filled slot of greatest timestamp, and finds one unless every filled slot
-- has timestamp 0.
get_newest_lem : (m : Slots) → Answers later 0 m (get_newest m)
unfolding get_newest
get_newest_lem m = lock_picked-Answers later m 0 (pick later m.slots 0 none 0) (
    pick_empty later (λ a. ground arith) (λ a b c h k. ground arith) (λ a b c h k. ground arith)
      m.slots 0)
