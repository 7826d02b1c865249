-- ===== src/Uds/Hex.antt =====
-- `udsParseAsciiHex` of libraries/FreematicsPlus/FreematicsUDS.cpp: the bytes of an answer that the
-- co-processor has written as text.
use vorsprung_logger.Base.{
  ℕ, zero, suc, ◌+◌, ◌*◌, ◌-◌, Bool, ◌||◌, ◌&&◌, leb, ◌==◌, if◌then◌else◌, List, [], ◌∷◌, ◌++◌,
  length, take,
}

-- `isxdigit`
abbrev pub is_xdigit : ℕ → Bool
is_xdigit c =
    (leb b'0' c && leb c b'9') || ((leb b'A' c && leb c b'F') || (leb b'a' c && leb c b'f'))

-- `strtol` of one such digit.
abbrev pub hex_value : ℕ → ℕ
hex_value c = if leb c b'9' then c - b'0' else if leb c b'F' then c + 10 - b'A' else c + 10 - b'a'

-- From the first digit on.
unfoldable pub skip_other : List ℕ → List ℕ
skip_other [] = []
skip_other (c ∷ cs) = if is_xdigit c then c ∷ cs else skip_other cs

-- The digits in front, and what is behind them.
unfoldable pub digit_run : List ℕ → List ℕ
digit_run [] = []
digit_run (c ∷ cs) = if is_xdigit c then c ∷ digit_run cs else []

unfoldable pub behind_run : List ℕ → List ℕ
behind_run [] = []
behind_run (c ∷ cs) = if is_xdigit c then behind_run cs else c ∷ cs

-- A run of two digits is a byte; any other is passed over.
abbrev pub run_byte : List ℕ → List ℕ
run_byte (a ∷ b ∷ []) = (16 * hex_value a + hex_value b) ∷ []
run_byte run = []

-- The first loop, with room for so many bytes. Each round takes at least one character, or is at
-- the end.
unfoldable pub collect : ℕ → ℕ → List ℕ → List ℕ
collect zero room cells = []
collect (suc fuel) zero cells = []
collect (suc fuel) (suc room) cells =
    let found = skip_other cells in
    let byte = run_byte (digit_run found) in
    byte ++ collect fuel (suc room - length byte) (behind_run found)

-- From the service byte on, of a positive or a negative answer.
abbrev pub from_service : List ℕ → List ℕ
from_service [] = []
from_service (b ∷ bs) = if (b == 0x62) || (b == 0x7F) then b ∷ bs else from_service bs

unfoldable pub uds_parse_ascii_hex : List ℕ → ℕ → List ℕ
uds_parse_ascii_hex cells outsize = take outsize (from_service (collect (length cells) 32 cells))
