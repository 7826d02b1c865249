-- ===== src/Slots/Free.antt =====
-- `getFree` loses a record only when no slot is empty, and then the oldest (src/teleclient.cpp).
use vorsprung_logger.Base.{
  ℕ, suc, ◌+◌, ◌≡◌, refl, ap, ◌∙◌, ◌⊎◌, inl, inr, Bool, true, false, ltb, ◌&&◌, if◌then◌else◌, List,
  [], ◌∷◌, Option, none, some, All, arith, Bool-cases,
}
use vorsprung_logger.Buffer as Buf
use vorsprung_logger.Buffer.{State, empty, filling, filled, locked, Buffer}
use vorsprung_logger.Slots.{
  Slots, modify, is_empty, is_filled, pick, max_timestamp, vacant, evict, choose, Turn, got, waits,
  locked_at, empty_at, wait_free, take_free, take_last, get_free,
}
use vorsprung_logger.Slots.Pick.{Unbeaten, IsBest, oldest_lem}

abbrev pub NoneEmpty : List Buffer → Type 0
NoneEmpty = All (λ b. is_empty b ≡ false)

-- The slot that the loop gives up: the oldest filled one, or slot 0 if there is none.
pub data IsVictim (bs : List Buffer) : ℕ → Type 0 where
  oldest : (i : ℕ) → IsBest ltb bs max_timestamp i → IsVictim bs i
  first : Unbeaten ltb max_timestamp bs → IsVictim bs 0

abbrev number : Option ℕ → ℕ
number none = 0
number (some i) = i

if-some : (b : Bool) (n m : ℕ) → (if b then some n else some m) ≡ some (if b then n else m)
if-some true n m = refl
if-some false n m = refl

choose_lem :
    (bs : List Buffer) (n m ts : ℕ)
    → ((j : ℕ) × (choose bs n m ts ≡ vacant (n + j)) × (empty_at bs j ≡ true))
      ⊎ ((choose bs n m ts ≡ evict (number (pick ltb bs n (some m) ts))) × NoneEmpty bs)
unfolding choose pick
choose_lem [] n m ts = inr (refl, tt)
choose_lem (b ∷ bs) n m ts = elim (Bool-cases (is_empty b)) [
  | inl e ↦ inl (0, rw e (ap vacant (omega arith)), e)
  | inr e ↦
      let older = is_filled b && ltb b.timestamp ts in
      elim (choose_lem bs (n + 1) (if older then n else m) (if older then b.timestamp else ts)) [
        | inl (j, c, h) ↦ inl (suc j, rw e (c ∙ ap vacant (omega arith)), h)
        | inr (c, h) ↦ inr (rw (e, if-some older n m) c, (e, h))
      ]
]

chosen :
    (bs : List Buffer)
    → ((j : ℕ) × (choose bs 0 0 max_timestamp ≡ vacant j) × (empty_at bs j ≡ true))
      ⊎ ((i : ℕ) × (choose bs 0 0 max_timestamp ≡ evict i) × NoneEmpty bs × IsVictim bs i)
chosen bs = elim (choose_lem bs 0 0 max_timestamp) [
  | inl (j, c, h) ↦ inl (j, c ∙ ap vacant (omega arith), h)
  | inr (c, h) ↦ elim (oldest_lem bs 0 (some 0) max_timestamp) [
    | inl (e, u) ↦ inr (0, c ∙ ap (λ o. evict (number o)) e, h, first u)
    | inr (j, e, best) ↦
        inr (j, c ∙ ap (λ o. evict (number o)) e ∙ ap evict (omega arith), h, oldest j best)
  ]
]

-- What `getFree` does to the slots `bs`: it hands out an empty slot and touches none; or, with no
-- slot empty, it empties its victim and hands that out, or waits while the victim is locked.
pub data Frees (bs : List Buffer) : Turn → Type 0 where
  spare :
      (i : ℕ) (m : Slots) → empty_at bs i ≡ true → m.slots ≡ bs → m.last ≡ none → Frees bs (got i m)
  evicted :
      (i : ℕ) (m : Slots)
      → NoneEmpty bs
      → IsVictim bs i
      → locked_at bs i ≡ false
      → m.slots ≡ modify i Buf.purge bs
      → m.last ≡ none
      → Frees bs (got i m)
  blocked :
      (i : ℕ) (m : Slots)
      → NoneEmpty bs
      → IsVictim bs i
      → locked_at bs i ≡ true
      → m.slots ≡ bs
      → m.last ≡ none
      → Frees bs (waits i m)

take_free-Frees : (m : Slots) → m.last ≡ none → Frees m.slots (take_free m)
unfolding take_free wait_free
take_free-Frees m l = elim (chosen m.slots) [
  | inl (j, c, h) ↦ rw c (spare j m h refl l)
  | inr (i, c, h, v) ↦ rw c (elim (Bool-cases (locked_at m.slots i)) [
    | inl k ↦ rw k (blocked i m h v k refl l)
    | inr k ↦ rw k (evicted i (record m { slots = modify i Buf.purge m.slots }) h v k refl l)
  ])
]

-- `getFree` loses no record while a slot is empty; else it gives up the oldest, and never a locked
-- one.
pub get_free-Frees : (m : Slots) → Frees m.slots (get_free m)
unfolding get_free
get_free-Frees m = from_last m.last m refl
  where
    from_last : (l : Option ℕ) (m : Slots) → m.last ≡ l → Frees m.slots (take_last l m)
    from_last none m e = take_free-Frees m e
    from_last (some i) m e = elim (Bool-cases (empty_at m.slots i)) [
      | inl h ↦ rw h (spare i (record m { last = none }) h refl refl)
      | inr h ↦ rw h (take_free-Frees (record m { last = none }) refl)
    ]
