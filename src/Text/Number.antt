-- ===== src/Text/Number.antt =====
-- `%u`, `%d` and `%X`: a number in decimal or in upper-case hexadecimal.
use vorsprung_logger.Base.{
  ℕ, zero, suc, ◌+◌, ◌-◌, ◌*◌, ◌/◌, ◌%◌, ◌^◌, ltb, leb, ◌&&◌, if◌then◌else◌, List, [], ◌∷◌, ◌++◌,
}

unfoldable pub digit : ℕ → ℕ
digit n = if ltb n 10 then 48 + n else 55 + n

-- At most `fuel` digits, most significant first. A 32-bit number has 10.
unfoldable pub digits_text : ℕ → ℕ → ℕ → List ℕ
unfolding digit
digits_text base zero n = []
digits_text base (suc fuel) n =
    let high = digits_text base fuel (n / base) in
    (if ltb n base then [] else high) ++ digit (n % base) ∷ []

unfoldable pub decimal : ℕ → List ℕ
unfolding digits_text
decimal n = digits_text 10 10 n

unfoldable pub hexadecimal : ℕ → List ℕ
unfolding digits_text
hexadecimal n = digits_text 16 8 n

-- `%d` of an int32_t, given by its 32-bit pattern.
unfoldable pub signed_decimal : ℕ → List ℕ
unfolding decimal
signed_decimal w = if ltb w (2 ^ 31) then decimal w else b'-' ∷ decimal (2 ^ 32 - w)

-- `atoi` of text that begins with a digit or has none.
unfoldable pub atoi_from : ℕ → List ℕ → ℕ
atoi_from n [] = n
atoi_from n (c ∷ cs) =
    let rest = atoi_from (n * 10 + (c - 48)) cs in if leb 48 c && leb c 57 then rest else n

unfoldable pub atoi : List ℕ → ℕ
unfolding atoi_from
atoi cs = atoi_from 0 cs
