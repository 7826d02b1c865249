-- ===== src/Identity/Vin.antt =====
-- What `vinIsValid` (src/main.cpp) accepts.
use vorsprung_logger.Base.{
  ℕ, ◌+◌, ◌≡◌, ◌↔◌, Bool, true, false, ◌==◌, ◌||◌, List, [], ◌∷◌, length, All, arith, zero, suc,
  not, leb, if◌then◌else◌, take,
}
use vorsprung_logger.Text.Cstring.{upto_nul}
use vorsprung_logger.Identity.{vin_char, vin_from, vin_is_valid}

-- A digit, or a capital letter other than I, O and Q.
abbrev pub alphabet : List ℕ
alphabet =
    b'0' ∷ b'1' ∷ b'2' ∷ b'3' ∷ b'4' ∷ b'5' ∷ b'6' ∷ b'7' ∷ b'8' ∷ b'9' ∷ b'A' ∷ b'B' ∷ b'C' ∷ b'D'
    ∷ b'E' ∷ b'F' ∷ b'G' ∷ b'H' ∷ b'J' ∷ b'K' ∷ b'L' ∷ b'M' ∷ b'N' ∷ b'P' ∷ b'R' ∷ b'S' ∷ b'T'
    ∷ b'U' ∷ b'V' ∷ b'W' ∷ b'X' ∷ b'Y' ∷ b'Z' ∷ []

abbrev pub among : ℕ → List ℕ → Bool
among c [] = false
among c (x ∷ xs) = c == x || among c xs

abbrev pub IsVinChar : ℕ → Type 0
IsVinChar c = among c alphabet ≡ true

vin_char_lem : (c : ℕ) → vin_char c ≡ among c alphabet
vin_char_lem c = ground arith

vin_from_lem :
    (n : ℕ) (cells : List ℕ)
    → (vin_from n cells ≡ true)
      ↔ ((n + length (upto_nul cells) ≡ 17) × All IsVinChar (upto_nul cells))
unfolding vin_from upto_nul
vin_from_lem n [] = ground arith
vin_from_lem n (c ∷ cs) = rw (vin_char_lem c) (ground (arith, vin_from_lem (n + 1) cs))

-- A text is taken for a VIN exactly if it has seventeen characters and each of them is a digit or a
-- capital letter other than I, O and Q.
pub vin_is_valid_lem :
    (cells : List ℕ)
    → (vin_is_valid cells ≡ true)
      ↔ ((length (upto_nul cells) ≡ 17) × All IsVinChar (upto_nul cells))
unfolding vin_is_valid
vin_is_valid_lem cells = ground (arith, vin_from_lem 0 cells)

last_test :
    (end last long wrong x y : Bool)
    → (x ≡ true → y ≡ true)
    → (if end then last else if long then false else if wrong then false else x) ≡ true
    → (if end then last else if long then false else if wrong then false else y) ≡ true
last_test true last long wrong x y next h = h
last_test false last true wrong x y next h = h
last_test false last false true x y next h = h
last_test false last false false x y next h = next h

-- What is copied of a text that is a VIN is a VIN.
vin_from-take :
    (n k : ℕ) (cells : List ℕ)
    → n + k ≡ 17
    → vin_from n cells ≡ true
    → vin_from n (take k cells) ≡ true
unfolding vin_from
vin_from-take n zero [] at h = h
vin_from-take n (suc k) [] at h = h
vin_from-take n zero (c ∷ cells) at h = ground arith
vin_from-take n (suc k) (c ∷ cells) at h =
    last_test (c == 0) (n == 17) (leb 17 n) (not (vin_char c)) (vin_from (n + 1) cells)
      (vin_from (n + 1) (take k cells)) (vin_from-take (n + 1) k cells (omega arith)) h

pub vin_is_valid-take :
    (cells : List ℕ) → vin_is_valid cells ≡ true → vin_is_valid (take 17 cells) ≡ true
unfolding vin_is_valid
vin_is_valid-take cells h = vin_from-take 0 17 cells (omega arith) h
