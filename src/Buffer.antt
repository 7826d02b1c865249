-- ===== src/Buffer.antt =====
-- `CBuffer` of src/teleclient.cpp and include/teleclient.h: a slot of 256 bytes that holds the
-- elements of one record, each a head of four bytes and its values. `m_data` is `used ++ rest`,
-- split at `offset`. Words are little-endian, as on the device.
pub mod Elements
pub mod Slot
pub mod Room
use vorsprung_logger.Base.{
  ℕ, zero, suc, ◌+◌, ◌-◌, ◌*◌, ◌/◌, ◌%◌, Bool, true, false, ltb, leb, ◌==◌, if◌then◌else◌, List, [],
  ◌∷◌, ◌++◌, length, drop, u8_mod, sub32,
}
use vorsprung_logger.Text.Number.{decimal, signed_decimal}
use vorsprung_logger.Store.{Store}
use vorsprung_logger.Store.Log.{log}
use vorsprung_logger.Store.Floats.{Format, plain, one_place, two_places, log_floats}

abbrev pub buffer_length : ℕ
buffer_length = 256

-- `sizeof(ELEMENT_HEAD)`
abbrev pub head_size : ℕ
head_size = 4

pub data State : Type 0 where
  empty filling filled locked : State

pub record Buffer : Type 0 where
  pub tick : ℕ
  pub timestamp : ℕ
  pub total : ℕ
  pub state : State
  pub used : List ℕ
  pub rest : List ℕ

abbrev pub offset : Buffer → ℕ
offset b = length b.used

-- The types of an element, by their numbers.
abbrev pub element_uint8 : ℕ
element_uint8 = 0

abbrev pub element_uint16 : ℕ
element_uint16 = 1

abbrev pub element_uint32 : ℕ
element_uint32 = 2

abbrev pub element_int32 : ℕ
element_int32 = 3

abbrev pub element_float : ℕ
element_float = 4

abbrev pub element_float_d1 : ℕ
element_float_d1 = 5

abbrev pub element_float_d2 : ℕ
element_float_d2 = 6

-- The bytes of an ELEMENT_HEAD.
abbrev pub head_bytes : ℕ → ℕ → ℕ → List ℕ
head_bytes pid type count = pid % u8_mod ∷ pid / u8_mod ∷ type ∷ count ∷ []

-- `add`, of the bytes at `values`. The test is in unsigned arithmetic.
unfoldable pub add : ℕ → ℕ → List ℕ → ℕ → Buffer → Buffer
add pid type values count b =
    if ltb (offset b) (sub32 (buffer_length - head_size) (length values))
    then record b {
      used = b.used ++ (head_bytes pid type count ++ values);
      rest = drop (head_size + length values) b.rest;
      total = (b.total + 1) % u8_mod;
    }
    else b

unfoldable pub purge : Buffer → Buffer
purge b = record b {
  state = empty;
  tick = 0;
  timestamp = 0;
  used = [];
  rest = b.used ++ b.rest;
  total = 0;
}

-- A word of `width` bytes, lowest first.
unfoldable pub word_at : ℕ → List ℕ → ℕ
word_at zero cells = 0
word_at (suc width) [] = 0
word_at (suc width) (c ∷ cells) = c + u8_mod * word_at width cells

unfoldable pub words_at : ℕ → ℕ → List ℕ → List ℕ
unfolding word_at
words_at width zero cells = []
words_at width (suc count) cells = word_at width cells ∷ words_at width count (drop width cells)

abbrev pub type_width : ℕ → ℕ
type_width type = if type == element_uint8 then 1 else if type == element_uint16 then 2 else 4

module _ (show : Format → ℕ → List ℕ) where
  -- The `store.log` that the switch of `serialize` makes for a type, at the values' address. For
  -- whole numbers `values[0]` is read whatever the count.
  unfoldable pub log_element : ℕ → ℕ → ℕ → List ℕ → Store → Store
  log_element type pid count cells s =
      let width = type_width type in
      let more = words_at width (count - 1) (drop width cells) in
      if ltb type element_int32
      then log decimal pid (word_at width cells) more s
      else if type == element_int32
      then log signed_decimal pid (word_at width cells) more s
      else if type == element_float
      then log_floats show plain pid (words_at width count cells) s
      else if type == element_float_d1
      then log_floats show one_place pid (words_at width count cells) s
      else log_floats show two_places pid (words_at width count cells) s

  -- The loop of `serialize`, with the elements left and the memory from `of` on. An unknown type
  -- ends it.
  unfoldable pub serialize_from : ℕ → ℕ → ℕ → List ℕ → Store → Store
  serialize_from zero offset of cells s = s
  serialize_from (suc left) offset of (lo ∷ hi ∷ type ∷ count ∷ cells) s =
      let size = count * type_width type in
      let rest =
        serialize_from left offset (of + head_size + size) (drop size cells)
          (log_element type (lo + u8_mod * hi) count cells s) in
      if ltb of offset then (if leb type element_float_d2 then rest else s) else s
  serialize_from (suc left) offset of cells s = s

  unfoldable pub serialize : Buffer → Store → Store
  serialize b s = serialize_from b.total (offset b) 0 (b.used ++ b.rest) s
