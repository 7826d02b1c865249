-- ===== src/Identity/DeviceId.antt =====
-- The device identifier of `genDeviceID` (src/main.cpp) is as good as the address it is made of.
use vorsprung_logger.Base.{
  ℕ, zero, suc, ◌+◌, ◌*◌, ◌-◌, ◌/◌, ◌%◌, ◌^◌, ◌<◌, ◌≡◌, refl, true, leb, ◌==◌, if◌then◌else◌, List,
  [], ◌∷◌, arith, ==_iff, u8_mod,
}
use vorsprung_logger.Base.Check.{checks, checks_lem}
use vorsprung_logger.Identity.{id_char, id_chars, gen_device_id}

-- The five bits of a character.
abbrev pub five_of : ℕ → ℕ
five_of c =
    if leb c b'9'
    then c - b'0'
    else if c == b'W'
    then 11
    else if c == b'X'
    then 13
    else if c == b'Y'
    then 18
    else if c == b'Z'
    then 24
    else c + 10 - b'A'

abbrev pub number_of : List ℕ → ℕ
number_of [] = 0
number_of (c ∷ cs) = five_of c + 32 * number_of cs

five_bits : checks (λ k. five_of (id_char k) == k) 32 ≡ true
unfolding checks id_char
five_bits = refl

five_of-id_char : (k : ℕ) → k < 32 → five_of (id_char k) ≡ k
five_of-id_char k below =
    (==_iff (five_of (id_char k)) k).0
      (checks_lem (λ n. five_of (id_char n) == n) 32 k below five_bits)

below_next : (left seed : ℕ) → seed < 32 ^ suc left → seed / 32 < 32 ^ left
below_next left seed below = omega arith

number_of-id_chars : (left seed : ℕ) → seed < 32 ^ left → number_of (id_chars left seed) ≡ seed
unfolding id_chars
number_of-id_chars zero seed below = omega arith
number_of-id_chars (suc left) seed below =
    let low = seed % u8_mod % 32 in
    rw
      (
        five_of-id_char low (omega arith),
        number_of-id_chars left (seed / 32) (below_next left seed below),
      )
      (omega arith)

-- The upper forty bits of the address can be read back from the identifier, so that two devices
-- have the same one only if their addresses agree in these bits.
number_of-gen_device_id : (mac : ℕ) → mac < 2 ^ 48 → number_of (gen_device_id mac) ≡ mac / 2 ^ 8
unfolding gen_device_id
number_of-gen_device_id mac below = number_of-id_chars 8 (mac / u8_mod) (omega arith)
