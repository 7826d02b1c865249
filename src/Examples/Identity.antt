-- ===== src/Examples/Identity.antt =====
-- A VIN, the adapter's placeholder, and the identifier of a device.
use vorsprung_logger.Base.{◌≡◌, refl, true, false, ◌↔◌, List, ◌∷◌, [], length, All, ℕ}
use vorsprung_logger.Text.Cstring.{upto_nul}
use vorsprung_logger.Identity.{vin_from, vin_is_valid, id_char, id_chars, gen_device_id}
use vorsprung_logger.Identity.Vin.{IsVinChar, vin_is_valid_lem}

-- "WAUZZZ4G7EN012345"
abbrev vin : List ℕ
vin =
    b'W' ∷ b'A' ∷ b'U' ∷ b'Z' ∷ b'Z' ∷ b'Z' ∷ b'4' ∷ b'G' ∷ b'7' ∷ b'E' ∷ b'N' ∷ b'0' ∷ b'1' ∷ b'2'
    ∷ b'3' ∷ b'4' ∷ b'5' ∷ 0 ∷ []

-- "EEPR0M-READ-ERR0R"
abbrev placeholder : List ℕ
placeholder =
    b'E' ∷ b'E' ∷ b'P' ∷ b'R' ∷ b'0' ∷ b'M' ∷ b'-' ∷ b'R' ∷ b'E' ∷ b'A' ∷ b'D' ∷ b'-' ∷ b'E' ∷ b'R'
    ∷ b'R' ∷ b'0' ∷ b'R' ∷ 0 ∷ []

a_vin : vin_is_valid vin ≡ true
unfolding vin_is_valid vin_from
a_vin = refl

no_vin : vin_is_valid placeholder ≡ false
unfolding vin_is_valid vin_from
no_vin = refl

vin_is_valid_lem_example :
    (vin_is_valid vin ≡ true) ↔ ((length (upto_nul vin) ≡ 17) × All IsVinChar (upto_nul vin))
vin_is_valid_lem_example = vin_is_valid_lem vin

an_identifier :
    gen_device_id 0xA4CF128D5E00 ≡ b'U' ∷ b'A' ∷ b'3' ∷ b'5' ∷ b'H' ∷ b'7' ∷ b'J' ∷ b'K' ∷ []
unfolding gen_device_id id_chars id_char
an_identifier = refl
