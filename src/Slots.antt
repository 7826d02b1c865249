-- ===== src/Slots.antt =====
-- `CBufferManager` of src/teleclient.cpp: the slots that the main loop fills and the telemetry
-- task empties. A pointer to a slot is its index. Each call is one step here; the two tasks run on
-- two cores and take no lock.
pub mod Pick
pub mod Free
pub mod Clear
use vorsprung_logger.Base.{
  ℕ, zero, suc, ◌+◌, ◌-◌, ◌^◌, Bool, true, false, ltb, ◌&&◌, if◌then◌else◌, List, [], ◌∷◌, map,
  Option, none, some, get_elem?, length,
}
use vorsprung_logger.Buffer as Buf
use vorsprung_logger.Buffer.{State, empty, filling, filled, locked, Buffer, offset}

pub record Slots : Type 0 where
  pub slots : List Buffer
  pub last : Option ℕ

-- `init`: the blocks that `malloc` gave, up to 32 of 256 bytes, become slots.
unfoldable pub init : List (List ℕ) → Slots
init blocks = record {
  slots =
      map
        (λ block.
          Buf.purge
            (record { tick = 0; timestamp = 0; total = 0; state = empty; used = []; rest = block }))
        blocks;
  last = none;
}

unfoldable pub purge : Slots → Slots
purge m = record m { slots = map Buf.purge m.slots }

abbrev pub modify : ℕ → (Buffer → Buffer) → List Buffer → List Buffer
modify i f [] = []
modify zero f (b ∷ bs) = f b ∷ bs
modify (suc i) f (b ∷ bs) = b ∷ modify i f bs

unfoldable pub free : ℕ → Slots → Slots
free i m = record { slots = modify i Buf.purge m.slots; last = some i }

abbrev pub is_empty : Buffer → Bool
is_empty b = elim b.state [ empty ↦ true | _ ↦ false ]

abbrev pub is_filled : Buffer → Bool
is_filled b = elim b.state [ filled ↦ true | _ ↦ false ]

abbrev pub is_locked : Buffer → Bool
is_locked b = elim b.state [ locked ↦ true | _ ↦ false ]

-- The loop of `getOldest` and `getNewest`: the best filled slot, if any is better than `ts`.
unfoldable pub pick : (ℕ → ℕ → Bool) → List Buffer → ℕ → Option ℕ → ℕ → Option ℕ
pick better [] n best ts = best
pick better (b ∷ bs) n best ts =
    let wins = is_filled b && better b.timestamp ts in
    pick better bs (n + 1) (if wins then some n else best) (if wins then b.timestamp else ts)

abbrev pub lock : Buffer → Buffer
lock b = record b { state = locked }

abbrev pub lock_picked : Option ℕ → Slots → Option ℕ × Slots
lock_picked none m = (none, m)
lock_picked (some i) m = (some i, record m { slots = modify i lock m.slots })

abbrev pub max_timestamp : ℕ
max_timestamp = 2 ^ 32 - 1

abbrev pub later : ℕ → ℕ → Bool
later a b = ltb b a

unfoldable pub get_oldest : Slots → Option ℕ × Slots
get_oldest m = lock_picked (pick ltb m.slots 0 none max_timestamp) m

unfoldable pub get_newest : Slots → Option ℕ × Slots
get_newest m = lock_picked (pick later m.slots 0 none 0) m

-- The loop of `getFree`: an empty slot, or else the oldest filled one, or else slot 0.
pub data Choice : Type 0 where
  vacant : ℕ → Choice
  evict : ℕ → Choice

unfoldable pub choose : List Buffer → ℕ → ℕ → ℕ → Choice
choose [] n m ts = evict m
choose (b ∷ bs) n m ts =
    let older = is_filled b && ltb b.timestamp ts in
    let rest = choose bs (n + 1) (if older then n else m) (if older then b.timestamp else ts) in
    if is_empty b then vacant n else rest

-- `getFree` has a slot, or waits for as long as the slot that it chose is locked.
pub data Turn : Type 0 where
  got : ℕ → Slots → Turn
  waits : ℕ → Slots → Turn

abbrev pub locked_at : List Buffer → ℕ → Bool
locked_at bs i = elim (get_elem? bs i) [ none ↦ false | some b ↦ is_locked b ]

abbrev pub empty_at : List Buffer → ℕ → Bool
empty_at bs i = elim (get_elem? bs i) [ none ↦ false | some b ↦ is_empty b ]

-- A look at the slot that it waits for: once it is not locked, it is emptied and handed out, whatever
-- the other slots hold by then.
unfoldable pub wait_free : ℕ → Slots → Turn
wait_free n m =
    if locked_at m.slots n
    then waits n m
    else got n (record m { slots = modify n Buf.purge m.slots })

abbrev pub take_choice : Choice → Slots → Turn
take_choice (vacant n) m = got n m
take_choice (evict n) m = wait_free n m

unfoldable pub take_free : Slots → Turn
take_free m = take_choice (choose m.slots 0 0 max_timestamp) m

-- The slot freed last is taken at once if it is empty still.
abbrev pub take_last : Option ℕ → Slots → Turn
take_last none m = take_free m
take_last (some i) m =
    if empty_at m.slots i
    then got i (record m { last = none })
    else take_free (record m { last = none })

unfoldable pub get_free : Slots → Turn
get_free m = take_last m.last m

-- `printStats`: samples, bytes and number of the filled slots.
unfoldable pub stats : List Buffer → ℕ × ℕ × ℕ
stats [] = (0, 0, 0)
stats (b ∷ bs) =
    let (samples, bytes, count) = stats bs in
    if is_filled b
    then (b.total + samples, offset b + bytes, count + 1)
    else (samples, bytes, count)
