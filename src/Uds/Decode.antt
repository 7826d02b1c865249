-- ===== src/Uds/Decode.antt =====
-- The decoders and the plausibility test of include/uds_dids.h. The arithmetic of `float` is a
-- parameter.
use vorsprung_logger.Base.{
  ℕ, ◌+◌, ◌-◌, ◌*◌, ◌^◌, Bool, true, ltb, ◌==◌, ◌&&◌, if◌then◌else◌, List, get_or, u8_mod,
}
use vorsprung_logger.Base.Int.{ℤ, pos, negsuc}
use vorsprung_logger.Uds.Table.{
  Decoder, temp_j1979_1b, temp_j1979_2b, temp_deci_kelvin_2b, u16_div1000_2b, u16_div100_2b,
  u16_div20_2b, u16_div12_8_2b, u16_div10_2b, u16_mul100_2b, u16_raw_2b, u8_raw_1b, bin_frac_pct_2b,
  signed_mbar_2b, signed_pct_div100_2b, u32_4b, Entry,
}

pub record FloatOps : Type 1 where
  pub Float : Type 0
  -- The cast of an integer, and the literal for a fraction.
  pub cast : ℤ → Float
  pub literal : ℤ → ℕ → Float
  pub minus : Float → Float → Float
  pub times : Float → Float → Float
  pub over : Float → Float → Float
  pub at_most : Float → Float → Bool
  pub plus : Float → Float → Float
  pub is_nought : Float → Bool
  -- `abs(x) > 0.001`, which is a comparison of doubles.
  pub far : Float → Bool
  -- The casts to int and to uint16_t.
  pub truncated : Float → ℤ
  pub truncated16 : Float → ℕ
  -- The pattern of 32 bits.
  pub bits : Float → ℕ
  -- What becomes of a signed product of days that leaves its range (`Time.Civil`).
  pub overflow : ℕ → ℕ → ℕ

abbrev pub u16_at : List ℕ → ℕ
u16_at d = get_or d 0 0 * u8_mod + get_or d 1 0

abbrev pub u32_at : List ℕ → ℕ
u32_at d =
    get_or d 0 0 * u8_mod ^ 3 + get_or d 1 0 * u8_mod ^ 2 + get_or d 2 0 * u8_mod + get_or d 3 0

-- A 16-bit word read as an int16_t.
abbrev pub int16 : ℕ → ℤ
int16 w = if ltb w (2 ^ 15) then pos w else negsuc (2 ^ 16 - w - 1)

module _ (f : FloatOps) where
  open f use {Float, cast, literal, minus, times, over, at_most}

  abbrev whole : ℕ → Float
  whole n = literal (pos n) 1

  unfoldable pub decode : Decoder → List ℕ → Float
  decode temp_j1979_1b d = minus (cast (pos (get_or d 0 0))) (whole 40)
  decode temp_j1979_2b d = minus (over (cast (pos (u16_at d))) (whole 10)) (whole 40)
  decode temp_deci_kelvin_2b d =
      minus (over (cast (pos (u16_at d))) (whole 10)) (literal (pos 2731) 10)
  decode u16_div1000_2b d = over (cast (pos (u16_at d))) (whole 1000)
  decode u16_div100_2b d = over (cast (pos (u16_at d))) (whole 100)
  decode u16_div20_2b d = over (cast (pos (u16_at d))) (whole 20)
  decode u16_div12_8_2b d = over (cast (pos (u16_at d))) (literal (pos 128) 10)
  decode u16_div10_2b d = over (cast (pos (u16_at d))) (whole 10)
  decode u16_mul100_2b d = times (cast (pos (u16_at d))) (whole 100)
  decode u16_raw_2b d = cast (pos (u16_at d))
  decode u8_raw_1b d = cast (pos (get_or d 0 0))
  decode bin_frac_pct_2b d = times (over (cast (pos (u16_at d))) (whole 8192)) (whole 100)
  decode signed_mbar_2b d = cast (int16 (u16_at d))
  decode signed_pct_div100_2b d = over (cast (int16 (u16_at d))) (whole 100)
  decode u32_4b d = cast (pos (u32_at d))

  unfoldable pub uds_value_plausible : Entry → Float → Bool
  uds_value_plausible e v =
      if get_or e.unit 0 0 == b'C' && get_or e.unit 1 0 == 0
      then at_most (literal (negsuc 59) 1) v && at_most v (literal (pos 1500) 1)
      else true
