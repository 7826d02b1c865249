-- ===== src/Uds/Table.antt =====
-- The table of include/uds_dids.h: the diagnostic data that the engine and the reductant control
-- units are asked for. The labels, which are only printed, are left out.
use vorsprung_logger.Base.{ℕ, Bool, ◌==◌, List, [], ◌∷◌}

abbrev pub uds_ecu_engine : ℕ
uds_ecu_engine = 0x7E0

abbrev pub uds_ecu_scr : ℕ
uds_ecu_scr = 0x7EA

-- The cadence tiers, and the mark of the group that is read together.
abbrev pub uds_fast : ℕ
uds_fast = 1

abbrev pub uds_slow : ℕ
uds_slow = 10

abbrev pub uds_glacial : ℕ
uds_glacial = 60

abbrev pub uds_group : ℕ
uds_group = 0

-- The decoders that a row can name.
pub data Decoder : Type 0 where
  temp_j1979_1b temp_j1979_2b temp_deci_kelvin_2b u16_div1000_2b u16_div100_2b u16_div20_2b
        u16_div12_8_2b u16_div10_2b u16_mul100_2b u16_raw_2b u8_raw_1b bin_frac_pct_2b
        signed_mbar_2b signed_pct_div100_2b u32_4b :
      Decoder

pub record Entry : Type 0 where
  pub did : ℕ
  pub req_id : ℕ
  pub synthetic_pid : ℕ
  pub bytes : ℕ
  pub interval_cycles : ℕ
  pub decoder : Decoder
  pub unit : List ℕ

abbrev entry : ℕ → ℕ → ℕ → ℕ → ℕ → Decoder → List ℕ → Entry
entry did req_id synthetic_pid bytes interval_cycles decoder unit = record {
  did = did;
  req_id = req_id;
  synthetic_pid = synthetic_pid;
  bytes = bytes;
  interval_cycles = interval_cycles;
  decoder = decoder;
  unit = unit;
}

abbrev pub is_group_member : Entry → Bool
is_group_member e = e.interval_cycles == uds_group

abbrev unit_celsius : List ℕ
unit_celsius = b'C' ∷ []

abbrev unit_percent : List ℕ
unit_percent = b'%' ∷ []

abbrev unit_bar : List ℕ
unit_bar = b'b' ∷ b'a' ∷ b'r' ∷ []

abbrev unit_kpa : List ℕ
unit_kpa = b'k' ∷ b'P' ∷ b'a' ∷ []

abbrev unit_hpa : List ℕ
unit_hpa = b'h' ∷ b'P' ∷ b'a' ∷ []

abbrev unit_mbar : List ℕ
unit_mbar = b'm' ∷ b'b' ∷ b'a' ∷ b'r' ∷ []

abbrev unit_g_per_s : List ℕ
unit_g_per_s = b'g' ∷ b'/' ∷ b's' ∷ []

abbrev unit_kg_per_h : List ℕ
unit_kg_per_h = b'k' ∷ b'g' ∷ b'/' ∷ b'h' ∷ []

abbrev unit_mg : List ℕ
unit_mg = b'm' ∷ b'g' ∷ []

abbrev unit_l_per_h : List ℕ
unit_l_per_h = b'L' ∷ b'/' ∷ b'h' ∷ []

abbrev unit_l : List ℕ
unit_l = b'L' ∷ []

abbrev unit_nm : List ℕ
unit_nm = b'N' ∷ b'm' ∷ []

abbrev unit_km : List ℕ
unit_km = b'k' ∷ b'm' ∷ []

abbrev unit_lambda : List ℕ
unit_lambda = b'l' ∷ b'a' ∷ b'm' ∷ b'b' ∷ b'd' ∷ b'a' ∷ []

abbrev unit_g : List ℕ
unit_g = b'g' ∷ []

abbrev unit_s : List ℕ
unit_s = b's' ∷ []

abbrev unit_m : List ℕ
unit_m = b'm' ∷ []

abbrev unit_ppm : List ℕ
unit_ppm = b'p' ∷ b'p' ∷ b'm' ∷ []

abbrev unit_ratio : List ℕ
unit_ratio = b'r' ∷ b'a' ∷ b't' ∷ b'i' ∷ b'o' ∷ []

abbrev unit_v : List ℕ
unit_v = b'V' ∷ []

abbrev unit_rpm : List ℕ
unit_rpm = b'r' ∷ b'p' ∷ b'm' ∷ []

abbrev pub uds_did_table : List Entry
uds_did_table =
    entry 0xF405 uds_ecu_engine 0x200 1 uds_slow temp_j1979_1b unit_celsius
    ∷ entry 0xF43C uds_ecu_engine 0x201 2 uds_fast temp_j1979_2b unit_celsius
    ∷ entry 0xF43E uds_ecu_engine 0x202 2 uds_fast temp_j1979_2b unit_celsius
    ∷ entry 0x10FB uds_ecu_engine 0x203 2 uds_fast temp_deci_kelvin_2b unit_celsius
    ∷ entry 0x11BE uds_ecu_engine 0x204 2 uds_slow temp_deci_kelvin_2b unit_celsius
    ∷ entry 0x11BF uds_ecu_engine 0x205 2 uds_slow u16_div100_2b unit_percent
    ∷ entry 0x1B04 uds_ecu_engine 0x206 2 uds_slow u16_div1000_2b unit_bar
    ∷ entry 0x25CF uds_ecu_engine 0x207 2 uds_slow u16_div1000_2b unit_bar
    ∷ entry 0x103C uds_ecu_engine 0x208 2 uds_slow u16_div1000_2b unit_bar
    ∷ entry 0x1627 uds_ecu_engine 0x209 2 uds_glacial u16_div1000_2b unit_bar
    ∷ entry 0xF40F uds_ecu_engine 0x20A 1 uds_group temp_j1979_1b unit_celsius
    ∷ entry 0x12FB uds_ecu_engine 0x20B 2 uds_slow temp_deci_kelvin_2b unit_celsius
    ∷ entry 0x162D uds_ecu_engine 0x20C 2 uds_slow temp_deci_kelvin_2b unit_celsius
    ∷ entry 0x1628 uds_ecu_engine 0x20D 2 uds_slow temp_deci_kelvin_2b unit_celsius
    ∷ entry 0x1798 uds_ecu_engine 0x20E 2 uds_slow temp_deci_kelvin_2b unit_celsius
    ∷ entry 0x1527 uds_ecu_engine 0x20F 2 uds_slow temp_deci_kelvin_2b unit_celsius
    ∷ entry 0x29AA uds_ecu_scr 0x210 1 uds_glacial temp_j1979_1b unit_celsius
    ∷ entry 0x422F uds_ecu_scr 0x211 1 uds_slow temp_j1979_1b unit_celsius
    ∷ entry 0xF433 uds_ecu_engine 0x212 1 uds_slow u8_raw_1b unit_kpa
    ∷ entry 0x1149 uds_ecu_engine 0x213 2 uds_slow u16_raw_2b unit_hpa
    ∷ entry 0x1B0E uds_ecu_engine 0x214 2 uds_group u16_div12_8_2b unit_hpa
    ∷ entry 0x1AB8 uds_ecu_engine 0x215 2 uds_slow u16_div10_2b unit_kpa
    ∷ entry 0x1169 uds_ecu_engine 0x216 2 uds_slow u16_mul100_2b unit_hpa
    ∷ entry 0x1148 uds_ecu_engine 0x217 2 uds_slow u16_div100_2b unit_percent
    ∷ entry 0x10F1 uds_ecu_engine 0x218 2 uds_slow u16_raw_2b unit_hpa
    ∷ entry 0x29A7 uds_ecu_scr 0x219 2 uds_slow signed_mbar_2b unit_mbar
    ∷ entry 0xF410 uds_ecu_engine 0x21A 2 uds_group u16_div100_2b unit_g_per_s
    ∷ entry 0x1024 uds_ecu_engine 0x21B 2 uds_slow u16_div10_2b unit_kg_per_h
    ∷ entry 0x104C uds_ecu_engine 0x21C 2 uds_slow u16_div10_2b unit_mg
    ∷ entry 0xF45E uds_ecu_engine 0x21D 2 uds_group u16_div20_2b unit_l_per_h
    ∷ entry 0x100C uds_ecu_engine 0x21E 2 uds_glacial u16_div100_2b unit_l
    ∷ entry 0x1047 uds_ecu_engine 0x21F 2 uds_group u16_div10_2b unit_nm
    ∷ entry 0x16A9 uds_ecu_engine 0x220 4 uds_glacial u32_4b unit_km
    ∷ entry 0x113D uds_ecu_engine 0x221 2 uds_slow u16_div1000_2b unit_lambda
    ∷ entry 0x12F8 uds_ecu_engine 0x222 2 uds_slow u16_div1000_2b unit_lambda
    ∷ entry 0x1334 uds_ecu_engine 0x223 2 uds_slow signed_pct_div100_2b unit_percent
    ∷ entry 0x10C2 uds_ecu_engine 0x224 2 uds_slow bin_frac_pct_2b unit_percent
    ∷ entry 0x132F uds_ecu_engine 0x225 2 uds_slow bin_frac_pct_2b unit_percent
    ∷ entry 0x1153 uds_ecu_engine 0x226 2 uds_glacial u16_div100_2b unit_l
    ∷ entry 0x114F uds_ecu_engine 0x227 2 uds_slow u16_div100_2b unit_g
    ∷ entry 0x114E uds_ecu_engine 0x228 2 uds_slow u16_div100_2b unit_g
    ∷ entry 0x115E uds_ecu_engine 0x229 4 uds_glacial u32_4b unit_s
    ∷ entry 0x1156 uds_ecu_engine 0x22A 4 uds_glacial u32_4b unit_m
    ∷ entry 0x115A uds_ecu_engine 0x22B 2 uds_glacial u16_div100_2b unit_l
    ∷ entry 0x13BD uds_ecu_engine 0x22C 2 uds_fast u16_raw_2b unit_ppm
    ∷ entry 0x13BC uds_ecu_engine 0x22D 2 uds_fast u16_raw_2b unit_ppm
    ∷ entry 0x13C3 uds_ecu_engine 0x22E 2 uds_glacial u16_div100_2b unit_ratio
    ∷ entry 0x13CB uds_ecu_engine 0x22F 2 uds_slow u16_div1000_2b unit_ratio
    ∷ entry 0x16F7 uds_ecu_engine 0x230 2 uds_glacial bin_frac_pct_2b unit_percent
    ∷ entry 0x29B7 uds_ecu_scr 0x231 2 uds_glacial u16_div1000_2b unit_v
    ∷ entry 0x3F4D uds_ecu_scr 0x232 2 uds_slow u16_raw_2b unit_rpm
    ∷ []
