-- ===== src/Examples/Packets.antt =====
-- Packets, slots of elements and the slot manager: tests, and the theorems at concrete inputs.
use vorsprung_logger.Base.{
  ℕ, ◌+◌, ◌≡◌, refl, ltb, List, [], ◌∷◌, none, some, length, replicate, arith,
}
use vorsprung_logger.Text.Cstring.{upto_nul, last_index, first_index}
use vorsprung_logger.Text.Number.{digit, digits_text, decimal, hexadecimal, signed_decimal}
use vorsprung_logger.Store as St
use vorsprung_logger.Store.{
  Store, cache_bytes, dispatch, header, checksum, drop_comma, trim, tailer, untailer, load,
}
use vorsprung_logger.Store.Bounds.{IsStore, dispatch-IsStore, dispatch-tailer_overrun}
use vorsprung_logger.Store.Log.{log, print_rest, item_line, write_stamp}
use vorsprung_logger.Store.LogText.{item_text, log_lem}
use vorsprung_logger.Store.Floats.{Format}
use vorsprung_logger.Store.Restamp.{restamp, restamp_lem}
use vorsprung_logger.Buffer.{filled, Buffer, add, serialize}
use vorsprung_logger.Buffer.Elements.{Element, value_bytes, add_element, log_all}
use vorsprung_logger.Buffer.Slot.{HasElements, serialize_lem}
use vorsprung_logger.Slots.{
  Slots, pick, lock, free, got, waits, wait_free, take_free, choose, get_oldest, get_free,
  max_timestamp,
}
use vorsprung_logger.Buffer as Buf
use vorsprung_logger.Slots.Pick.{Answers, get_oldest_lem}
use vorsprung_logger.Slots.Free.{Frees, get_free-Frees}

unfoldable pub texts : Unit {0}
unfolding digit digits_text decimal hexadecimal signed_decimal upto_nul last_index first_index
texts = tt

unfoldable pub caches : Unit {0}
unfolding texts St.purge dispatch header checksum drop_comma trim tailer untailer load log
    print_rest item_line
caches = tt

abbrev pub blank : ℕ → Store
blank n = St.init (replicate n 0)

-- "AB"
abbrev pub devid : List ℕ
devid = b'A' ∷ b'B' ∷ []

-- AB#10D:42*EB
abbrev packet : List ℕ
packet = b'A' ∷ b'B' ∷ b'#' ∷ b'1' ∷ b'0' ∷ b'D' ∷ b':' ∷ b'4' ∷ b'2' ∷ b'*' ∷ b'E' ∷ b'B' ∷ []

one_item : (tailer (log signed_decimal 0x10d 42 [] (header devid (blank 64)))).text ≡ packet
unfolding caches
one_item = refl

-- "AB#10D:42,"
abbrev pub opened : Store
opened = record {
  size = 200;
  text = b'A' ∷ b'B' ∷ b'#' ∷ b'1' ∷ b'0' ∷ b'D' ∷ b':' ∷ b'4' ∷ b'2' ∷ b',' ∷ [];
  after = replicate 190 0;
  samples = 1;
}

opened-IsStore : IsStore opened
opened-IsStore = omega arith

abbrev body : List ℕ
body = b'A' ∷ b'B' ∷ b'#' ∷ b'1' ∷ b'0' ∷ b'D' ∷ b':' ∷ b'4' ∷ b'2' ∷ []

restamp_lem_example :
    (restamp 1788588749 (tailer opened).text (blank 200)).text
    ≡ (tailer (write_stamp 1788588749 opened)).text
unfolding caches
restamp_lem_example =
    restamp_lem 1788588749 body opened (blank 200) refl (omega arith) refl (omega arith)

dispatch-IsStore_example : IsStore (dispatch (b'A' ∷ []) opened)
dispatch-IsStore_example = dispatch-IsStore (b'A' ∷ []) opened opened-IsStore (omega arith)

-- A cache of 16 bytes: ten used, three for the item, three kept.
abbrev tight : Store
tight = record opened { size = 16; after = replicate 6 0 }

dispatch-tailer_overrun_example :
    let t = tailer (dispatch (b'0' ∷ b':' ∷ b'1' ∷ []) tight) in
    length t.text + length t.after ≡ 16 + 1
unfolding checksum
dispatch-tailer_overrun_example =
    dispatch-tailer_overrun (b'0' ∷ b':' ∷ b'1' ∷ []) tight (omega arith) (omega arith)
      (omega arith) (omega arith)

log_lem_example :
    log decimal 0x20 1 (2 ∷ 3 ∷ []) opened ≡ dispatch (item_text decimal 0x20 1 (2 ∷ 3 ∷ [])) opened
unfolding texts
log_lem_example = log_lem decimal 0x20 1 (2 ∷ 3 ∷ []) opened (omega arith)

-- A float printed as its whole number, with two noughts.
abbrev pub whole_number : Format → ℕ → List ℕ
whole_number f v = b'7' ∷ b'.' ∷ b'0' ∷ b'0' ∷ []

abbrev speed : Element
speed = record { pid = 0x10d; type = 3; first = 42; more = [] }

abbrev egt : Element
egt = record { pid = 0x201; type = 6; first = 1078530011; more = [] }

abbrev block : Buffer
block = record {
  tick = 5000;
  timestamp = 5;
  total = 0;
  state = filled;
  used = [];
  rest = replicate 256 0;
}

abbrev pub full : Buffer
full = record {
  tick = 5000;
  timestamp = 5;
  total = 1;
  state = filled;
  used = 13 ∷ 1 ∷ 3 ∷ 1 ∷ 42 ∷ 0 ∷ 0 ∷ 0 ∷ [];
  rest = replicate 248 0;
}

added : add_element speed block ≡ full
unfolding add value_bytes
added = refl

full-HasElements : HasElements full (speed ∷ [])
unfolding value_bytes
full-HasElements = record {
  used_is = refl;
  total_is = refl;
  elements_in = omega arith;
  whole = refl;
  few = omega arith;
}

serialize_lem_example :
    serialize whole_number full opened ≡ log_all whole_number (speed ∷ []) opened
serialize_lem_example = serialize_lem whole_number full (speed ∷ []) opened full-HasElements

abbrev later_full : Buffer
later_full = record full { timestamp = 9 }

abbrev pub both : Slots
both = record { slots = later_full ∷ full ∷ []; last = none }

takes_oldest : (get_oldest both).0 ≡ some 1
unfolding get_oldest pick
takes_oldest = refl

get_oldest_lem_example : Answers ltb max_timestamp both (get_oldest both)
get_oldest_lem_example = get_oldest_lem both

get_free-Frees_example : Frees (later_full ∷ full ∷ []) (get_free both)
get_free-Frees_example = get_free-Frees both

-- `getFree` with each slot locked waits for the first one, and takes it when it is freed.
abbrev busy : Slots
busy = record { slots = lock full ∷ lock full ∷ []; last = none }

busy_waits : get_free busy ≡ waits 0 busy
unfolding get_free take_free choose wait_free
busy_waits = refl

freed_taken :
    wait_free 0 (free 0 busy)
    ≡ got 0 (record { slots = Buf.purge full ∷ lock full ∷ []; last = some 0 })
unfolding wait_free free Buf.purge
freed_taken = refl
