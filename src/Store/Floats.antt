-- ===== src/Store/Floats.antt =====
-- `CStorage::log` for floats (src/telestore.cpp). How `snprintf` prints a float is a parameter: a
-- text for each format and each float, given by its 32 bits.
use vorsprung_logger.Base.{
  ℕ, ◌+◌, ◌-◌, ◌%◌, Bool, true, false, ltb, ◌==◌, ◌&&◌, if◌then◌else◌, List, [], ◌∷◌, ◌++◌, none,
  some, length, take, drop, u8_mod,
}
use vorsprung_logger.Text.Cstring.{first_index}
use vorsprung_logger.Text.Number.{hexadecimal, atoi}
use vorsprung_logger.Store.{Store, dispatch}
use vorsprung_logger.Store.Log.{buf_size}

-- The formats in use: "%f", "%.1f" and "%.2f".
pub data Format : Type 0 where
  plain one_place two_places : Format

-- `-0` and a fraction of noughts lose their sign.
abbrev pub is_minus_nought : List ℕ → Bool
is_minus_nought (c ∷ d ∷ cs) = c == b'-' && d == b'0'
is_minus_nought cs = false

-- A printed float without a fraction that is nought.
abbrev pub whole_part : List ℕ → ℕ → List ℕ
whole_part t i = if is_minus_nought (take i t) then b'0' ∷ [] else take i t

-- `snprintf` gives the length of the whole print, and writes what there is room for: the search for
-- the point and its fraction see only that.
unfoldable pub short_float : ℕ → List ℕ → List ℕ
unfolding first_index atoi
short_float room t = elim (first_index b'.' (take room t)) [
  | none ↦ t
  | some i ↦ if atoi (drop (i + 1) (take room t)) == 0 then whole_part (take room t) i else t
]

module _ (show : Format → ℕ → List ℕ) where
  -- The loop, with the text before `p`. It stops three bytes before the end of the buffer, where
  -- `snprintf` ends at the last byte but one. A text that got longer counts in full; `dispatch` takes
  -- no byte behind the 255 that were written.
  unfoldable pub print_floats : Format → Bool → List ℕ → List ℕ → List ℕ
  unfolding short_float
  print_floats fmt first text [] = text
  print_floats fmt first text (v ∷ vs) =
      let before = if first then text else text ++ b';' ∷ [] in
      let text' = before ++ short_float (buf_size - 1 - length before) (show fmt v) in
      let rest = print_floats fmt false text' vs in
      if ltb (length text) (buf_size - 3) then rest else text

  -- `dispatch` takes its length as a byte.
  unfoldable pub log_floats : Format → ℕ → List ℕ → Store → Store
  unfolding print_floats
  log_floats fmt pid vs s =
      let text = print_floats fmt true (hexadecimal pid ++ b':' ∷ []) vs in
      dispatch (take (length text % u8_mod) text) s
