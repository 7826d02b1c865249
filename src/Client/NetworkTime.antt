-- ===== src/Client/NetworkTime.antt =====
-- `CellUDPTime::networkTime` of src/teleclient.cpp: the modem's clock, taken as UTC.
use vorsprung_logger.Base.{ℕ, ◌+◌, List, [], ◌∷◌, Option, none, some, take, drop}
use vorsprung_logger.Text.Cstring.{first_index, find}
use vorsprung_logger.Time.Civil.{civil_to_epoch}
use vorsprung_logger.Client.{CivilTime, Cell}

-- "AT+CCLK?" and a carriage return.
abbrev clock_command : List ℕ
clock_command = b'A' ∷ b'T' ∷ b'+' ∷ b'C' ∷ b'C' ∷ b'L' ∷ b'K' ∷ b'?' ∷ 13 ∷ []

abbrev upto_quote : List ℕ → Option ℕ → List ℕ
upto_quote cells none = cells
upto_quote cells (some j) = take j cells

-- The text between the first two quotation marks, or to the end.
abbrev quoted : List ℕ → Option ℕ → Option (List ℕ)
quoted cells none = none
quoted cells (some i) =
    let inside = drop (i + 1) cells in some (upto_quote inside (first_index b'"' inside))

-- What stands in quotation marks behind "+CCLK:".
unfoldable pub clock_text : Option (List ℕ) → Option (List ℕ)
clock_text none = none
clock_text (some buffer) = elim (find (b'+' ∷ b'C' ∷ b'C' ∷ b'L' ∷ b'K' ∷ b':' ∷ []) buffer) [
  | none ↦ none
  | some p ↦ quoted p (first_index b'"' p)
]

module _ (c : Cell) where
  abbrev epoch_of : Option CivilTime → Option ℕ
  epoch_of none = none
  epoch_of (some t) = some (civil_to_epoch c.overflow (2000 + t.yy) t.mo t.dd t.hh t.mi t.ss)

  abbrev scanned : Option (List ℕ) → Option ℕ
  scanned none = none
  scanned (some cells) = epoch_of (c.scan_clock cells)

  unfoldable pub network_time : c.Net → Option ℕ × c.Net
  network_time net =
      let (answer, net') = c.command clock_command net in (scanned (clock_text answer), net')
