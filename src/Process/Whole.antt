-- ===== src/Process/Whole.antt =====
-- A cycle as a whole (`process` of src/main.cpp): no value that it adds to its slot is refused, and
-- the next cycle finds the slots, the table and the cursors in order again.
use vorsprung_logger.Base.{
  ℕ, ◌-◌, ◌≡◌, refl, sym, ap, ◌∙◌, inl, inr, Bool, false, leb, ltb, Bool-cases, Option-cases, List,
  [], ◌∷◌, Option, none, some, get_elem?, arith, ◌/◌, if◌then◌else◌, length, sub32,
}
use mathlib.Core.Path.{subst}
use vorsprung_logger.Buffer.{State, filling, filled, Buffer, buffer_length, head_size, offset, add}
use vorsprung_logger.Buffer.Room.{Call, add_all, Room, HasRoom, Room-HasRoom}
use vorsprung_logger.Slots.{Slots, Turn, got, waits, modify, is_empty}
use vorsprung_logger.Slots.Clear.{
  IsClear, AllClear, get_elem?-modify, modify-AllClear, HandsOut, get_free-HandsOut,
  wait_free-HandsOut,
}
use vorsprung_logger.Uds.Decode.{FloatOps}
use vorsprung_logger.Process.Board.{Board}
use vorsprung_logger.Process.Parts.{Begun, Logger}
use vorsprung_logger.Process.Cycle.{
  stationary_time_table, choose_interval, collect_values, opened, completed, put_slot, note_stats,
  take_interval, rest_of_cycle, fill_slot, with_slot, cycle_of, turn_of, process,
}
use vorsprung_logger.Process.Room.{IsLogger, collect_values-Collects}

-- A slot keeps its state while values are added.
add-state :
    (pid type count : ℕ) (cells : List ℕ) (b : Buffer)
    → (add pid type cells count b).state ≡ b.state
unfolding add
add-state pid type count cells b =
    elim (Bool-cases (ltb (offset b) (sub32 (buffer_length - head_size) (length cells)))) [
      | inl e ↦ rw e refl
      | inr e ↦ rw e refl
    ]

add_all-state : (cs : List Call) (b : Buffer) → (add_all cs b).state ≡ b.state
add_all-state [] b = refl
add_all-state (c ∷ cs) b =
    add_all-state cs (add c.pid c.type c.cells c.count b) ∙ add-state c.pid c.type c.count c.cells b

Room-state : {k : ℕ} (b b' : Buffer) → Room k b b' → b'.state ≡ b.state
Room-state b b' r = ap (λ (c : Buffer). c.state) r.made ∙ add_all-state r.calls b

-- A slot that is being filled, or is filled, is not an empty one.
busy-IsClear :
    (b : Buffer) (s : State) → b.state ≡ s → is_empty (record b { state = s }) ≡ false → IsClear b
busy-IsClear b s at busy e =
    absurd (ground (arith, ap (λ (t : State). is_empty (record b { state = t })) at, busy, e))

module _ (f : FloatOps) (board : Board f) where
  -- Between two cycles.
  pub record IsReady (s : Logger f board) : Type 0 where
    pub logger : IsLogger f board s.slots s
    pub clear : AllClear s.slots.slots

  take_interval-IsLogger :
      {m : Slots} (s : Logger f board)
      → IsLogger f board m s
      → IsLogger f board m (take_interval f board s).1
  unfolding take_interval
  take_interval-IsLogger s good =
      let motionless = sub32 (board.millis s.hw) s.position.last_motion_time / 1000 in
      elim (Bool-cases (choose_interval motionless s.data_interval stationary_time_table).1) [
        | inl e ↦
            rw e (record { table = good.table; idx = good.idx; at = good.at; named = good.named })
        | inr e ↦
            rw e (record { table = good.table; idx = good.idx; at = good.at; named = good.named })
      ]

  note_stats-IsLogger :
      {m : Slots} (start : ℕ) (s : Logger f board)
      → IsLogger f board m s
      → IsLogger f board m (note_stats f board start s)
  note_stats-IsLogger start s good = elim (Bool-cases (leb 3000 (sub32 start s.last_stats_time))) [
    | inl e ↦ rw e (record { table = good.table; idx = good.idx; at = good.at; named = good.named })
    | inr e ↦ rw e good
  ]

  rest_of_cycle-IsLogger :
      {m : Slots} (fuel start : ℕ) (s : Logger f board)
      → IsLogger f board m s
      → IsLogger f board m (rest_of_cycle f board fuel start s)
  rest_of_cycle-IsLogger fuel start s good =
      let noted = note_stats f board start s in
      let later = take_interval-IsLogger noted (note_stats-IsLogger start s good) in
      elim (Bool-cases (take_interval f board noted).0) [
        | inl e ↦
            rw e
              (record { table = later.table; idx = later.idx; at = later.at; named = later.named })
        | inr e ↦ rw e later
      ]

  -- The slot at the end of a cycle, and what the cycle collected.
  abbrev pub collected : ℕ → Buffer → Logger f board → Bool × Buffer × Logger f board
  collected tick b s = collect_values f board (opened f board tick b) s

  abbrev pub finished : ℕ → Buffer → Logger f board → Buffer
  finished tick b s =
      let (on, b', s') = collected tick b s in if on then completed f board tick b' else b'

  put_slot-IsLogger :
      (m : Slots) (i : ℕ) (b : Buffer) (s : Logger f board)
      → IsLogger f board m s
      → IsLogger f board (record m { slots = modify i (λ old. b) m.slots }) (put_slot f board i b s)
  put_slot-IsLogger m i b s good = record {
    table = good.table;
    idx = good.idx;
    at = ap (λ (n : Slots). record n { slots = modify i (λ old. b) n.slots }) good.at;
    named = good.named;
  }

  fill_slot-IsLogger :
      (fuel i : ℕ) (c : Begun f board) (b : Buffer) (s : Logger f board)
      → IsLogger f board s.slots s
      → IsLogger f board
          (record (s.slots) { slots = modify i (λ old. finished c.tick b s) s.slots.slots })
          (fill_slot f board fuel i c b s)
  unfolding fill_slot
  fill_slot-IsLogger fuel i c b s good =
      let tick = c.tick in
      let (on, b', s') = collected tick b s in
      let after = (collect_values-Collects f board (opened f board tick b) s good).logger in
      elim (Bool-cases on) [
        | inl e ↦ rw e (
            rest_of_cycle-IsLogger fuel c.start (put_slot f board i (completed f board tick b') s')
              (put_slot-IsLogger s.slots i (completed f board tick b') s' after))
        | inr e ↦ rw e (put_slot-IsLogger s.slots i b' s' after)
      ]

  finished-IsClear :
      (tick : ℕ) (b : Buffer) (s : Logger f board)
      → IsLogger f board s.slots s
      → IsClear (finished tick b s)
  finished-IsClear tick b s good =
      let (on, b', s') = collected tick b s in
      let after = (collect_values-Collects f board (opened f board tick b) s good).room in
      elim (Bool-cases on) [
        | inl e ↦ rw e (busy-IsClear (completed f board tick b') filled refl refl)
        | inr e ↦ rw e (busy-IsClear b' filling (Room-state (opened f board tick b) b' after) refl)
      ]

  fill_slot-IsReady :
      (fuel i : ℕ) (c : Begun f board) (b : Buffer) (s : Logger f board)
      → IsReady s
      → IsReady (fill_slot f board fuel i c b s)
  fill_slot-IsReady fuel i c b s ready =
      let done = fill_slot-IsLogger fuel i c b s ready.logger in
      record {
        logger = record { table = done.table; idx = done.idx; at = refl; named = done.named };
        clear =
            subst (λ (m : Slots). AllClear m.slots) (sym done.at)
              (modify-AllClear (λ old. finished c.tick b s) s.slots.slots i
                (λ old. finished-IsClear c.tick b s ready.logger) ready.clear);
      }

  -- With the slots as `getFree` has left them, and a cycle that waits or none.
  given :
      (m : Slots) (o : Option (Begun f board × ℕ)) (hw : board.Hw) (s : Logger f board)
      → IsReady s
      → AllClear m.slots
      → IsReady (record s { slots = m; pending = o; hw = hw })
  given m o hw s ready clear = record {
    logger = record {
      table = ready.logger.table;
      idx = ready.logger.idx;
      at = refl;
      named = ready.logger.named;
    };
    clear = clear;
  }

  turn_of-HandsOut :
      (o : Option (Begun f board × ℕ)) (s : Logger f board)
      → AllClear s.slots.slots
      → HandsOut (turn_of f board o s)
  turn_of-HandsOut none s clear = get_free-HandsOut s.slots clear
  turn_of-HandsOut (some (c, i)) s clear = wait_free-HandsOut i s.slots clear

  -- Cycle after cycle, the table of the engine's values, the cursors of its tiers and the empty slots
  -- stay in order, whatever the drivers answer.
  pub process-IsReady :
      (fuel : ℕ) (s : Logger f board) → IsReady s → IsReady (process f board fuel s)
  unfolding process
  process-IsReady fuel s ready =
      with_turn (turn_of f board s.pending s) (turn_of-HandsOut s.pending s ready.clear)
    where
      c : Begun f board
      c = cycle_of f board s.pending s

      with_turn : (t : Turn) → HandsOut t → IsReady (with_slot f board fuel c t s)
      with_turn (waits i m) out = given m (some (c, i)) (board.delay 1 s.hw) s ready out
      with_turn (got i m) out = elim (Option-cases (get_elem? m.slots i)) [
        | inl e ↦ rw (with_slot, e) ready
        | inr (b, e) ↦
            rw (with_slot, e)
              (fill_slot-IsReady fuel i c b (record s { slots = m; pending = none })
                (given m none s.hw s ready out.0))
      ]

  -- A cycle does not run out of room: `getFree` has handed out the slot `i`, which is blank; behind
  -- the last value it holds one element for each of some calls of `add`, one behind the other, in 190
  -- bytes at most, and would still accept a further element of 65; and the slot `i` is that slot,
  -- marked as complete unless the engine's control unit went off. The table, the cursors and the
  -- empty slots were in order before.
  pub process-HasRoom :
      (fuel i : ℕ) (m : Slots) (b : Buffer) (s : Logger f board)
      → IsReady s
      → turn_of f board s.pending s ≡ got i m
      → get_elem? m.slots i ≡ some b
      → let s' : Logger f board = record s { slots = m; pending = none } in
        let tick = (cycle_of f board s.pending s).tick in
        HasRoom 190 65 (opened f board tick b) (collected tick b s').1
        × (get_elem? (process f board fuel s).slots.slots i ≡ some (finished tick b s'))
  unfolding process
  process-HasRoom fuel i m b s ready turn at =
      let s' : Logger f board = record s { slots = m; pending = none } in
      let c = cycle_of f board s.pending s in
      let out : HandsOut (got i m) =
        subst HandsOut turn (turn_of-HandsOut s.pending s ready.clear) in
      let here = given m none s.hw s ready out.0 in
      let blank = out.1 b at in
      let done = fill_slot-IsLogger fuel i c b s' here.logger in
      let slot : get_elem? (with_slot f board fuel c (got i m) s).slots.slots i
          ≡ some (finished c.tick b s') =
        rw (with_slot, at)
          (ap (λ (n : Slots). get_elem? n.slots i) done.at
            ∙ get_elem?-modify (λ old. finished c.tick b s') m.slots i b at) in
      (
        Room-HasRoom 190 65 (opened f board c.tick b) (collected c.tick b s').1 (omega arith)
            blank.unused blank.uncounted
            (collect_values-Collects f board (opened f board c.tick b) s' here.logger).room,
        ap (λ t. get_elem? (with_slot f board fuel c t s).slots.slots i) turn ∙ slot,
      )
