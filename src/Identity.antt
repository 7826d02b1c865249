-- ===== src/Identity.antt =====
-- What names the car and the device: `vinIsValid` and `genDeviceID` of src/main.cpp.
pub mod Vin
pub mod DeviceId
use vorsprung_logger.Base.{
  ℕ, zero, suc, ◌+◌, ◌-◌, ◌/◌, ◌%◌, ◌^◌, Bool, true, false, not, leb, ◌==◌, ◌&&◌, ◌||◌,
  if◌then◌else◌, List, [], ◌∷◌, u8_mod,
}

-- The characters that a VIN may have.
abbrev pub vin_char : ℕ → Bool
vin_char c =
    (leb b'0' c && leb c b'9')
    || (leb b'A' c && (leb c b'Z' && (not (c == b'I') && (not (c == b'O') && not (c == b'Q')))))

-- The loop of `vinIsValid` at the `n`-th character, with the rest of the text. The array's end
-- ends the text, as a NUL does.
unfoldable pub vin_from : ℕ → List ℕ → Bool
vin_from n [] = n == 17
vin_from n (c ∷ cs) =
    let rest = vin_from (n + 1) cs in
    if c == 0 then n == 17 else if leb 17 n then false else if not (vin_char c) then false else rest

unfoldable pub vin_is_valid : List ℕ → Bool
vin_is_valid cells = vin_from 0 cells

-- The character for five bits. Four letters that are read as digits are replaced.
unfoldable pub id_char : ℕ → ℕ
id_char five =
    let x = five - 10 + b'A' in
    if not (leb 10 five)
    then five + b'0'
    else if x == b'B'
    then b'W'
    else if x == b'D'
    then b'X'
    else if x == b'I'
    then b'Y'
    else if x == b'O'
    then b'Z'
    else x

-- The loop of `genDeviceID`, with the rounds left.
unfoldable pub id_chars : ℕ → ℕ → List ℕ
id_chars zero seed = []
id_chars (suc left) seed = id_char (seed % u8_mod % 32) ∷ id_chars left (seed / 32)

-- The identifier in front of the NUL, of the address in the chip's fuses.
unfoldable pub gen_device_id : ℕ → List ℕ
gen_device_id mac = id_chars 8 (mac / u8_mod)
