-- ===== src/Uds/Rows.antt =====
-- What each row of the table of include/uds_dids.h must satisfy.
use vorsprung_logger.Base.{
  ℕ, zero, suc, ◌+◌, ◌≤◌, ◌<◌, ◌≡◌, refl, ap, ◌∙◌, Bool, true, leb, ◌==◌, ◌&&◌, and-eq-true, ==_iff,
  leb→le, List, [], ◌∷◌, some, get_elem?, get_or, take, arith,
}
use mathlib.Core.Path.{subst}
use vorsprung_logger.Uds.Table.{
  Decoder, temp_j1979_1b, temp_j1979_2b, temp_deci_kelvin_2b, u16_div1000_2b, u16_div100_2b,
  u16_div20_2b, u16_div12_8_2b, u16_div10_2b, u16_mul100_2b, u16_raw_2b, u8_raw_1b, bin_frac_pct_2b,
  signed_mbar_2b, signed_pct_div100_2b, u32_4b, Entry, uds_did_table,
}
use vorsprung_logger.Uds.Decode.{FloatOps, u16_at, u32_at, decode}

get_or-take : (d : List ℕ) (n i : ℕ) → i < n → get_or (take n d) i 0 ≡ get_or d i 0
get_or-take [] zero i h = refl
get_or-take [] (suc n) i h = refl
get_or-take (x ∷ d) zero i h = absurd (omega arith)
get_or-take (x ∷ d) (suc n) zero h = refl
get_or-take (x ∷ d) (suc n) (suc i) h = get_or-take d n i (omega arith)

-- The bytes that a decoder looks at.
abbrev needs : Decoder → ℕ
needs temp_j1979_1b = 1
needs u8_raw_1b = 1
needs u32_4b = 4
needs d = 2

u16_at-take : (d : List ℕ) (n : ℕ) → 2 ≤ n → u16_at (take n d) ≡ u16_at d
u16_at-take d n h =
    let first = get_or-take d n 0 (omega arith) in
    let second = get_or-take d n 1 (omega arith) in omega (arith, first, second)

u32_at-take : (d : List ℕ) (n : ℕ) → 4 ≤ n → u32_at (take n d) ≡ u32_at d
u32_at-take d n h =
    let a = get_or-take d n 0 (omega arith) in
    let b = get_or-take d n 1 (omega arith) in
    let c = get_or-take d n 2 (omega arith) in
    let e = get_or-take d n 3 (omega arith) in omega (arith, a, b, c, e)

decode-take :
    (f : FloatOps) (decoder : Decoder) (d : List ℕ) (n : ℕ)
    → needs decoder ≤ n
    → decode f decoder (take n d) ≡ decode f decoder d
unfolding decode
decode-take f temp_j1979_1b d n h = rw (get_or-take d n 0 h, decode)
decode-take f temp_j1979_2b d n h = rw (u16_at-take d n h, decode)
decode-take f temp_deci_kelvin_2b d n h = rw (u16_at-take d n h, decode)
decode-take f u16_div1000_2b d n h = rw (u16_at-take d n h, decode)
decode-take f u16_div100_2b d n h = rw (u16_at-take d n h, decode)
decode-take f u16_div20_2b d n h = rw (u16_at-take d n h, decode)
decode-take f u16_div12_8_2b d n h = rw (u16_at-take d n h, decode)
decode-take f u16_div10_2b d n h = rw (u16_at-take d n h, decode)
decode-take f u16_mul100_2b d n h = rw (u16_at-take d n h, decode)
decode-take f u16_raw_2b d n h = rw (u16_at-take d n h, decode)
decode-take f u8_raw_1b d n h = rw (get_or-take d n 0 h, decode)
decode-take f bin_frac_pct_2b d n h = rw (u16_at-take d n h, decode)
decode-take f signed_mbar_2b d n h = rw (u16_at-take d n h, decode)
decode-take f signed_pct_div100_2b d n h = rw (u16_at-take d n h, decode)
decode-take f u32_4b d n h = rw (u32_at-take d n h, decode)

-- Row `i` has enough bytes for its decoder, and the identifier 0x200 + i.
abbrev row_ok : ℕ → Entry → Bool
row_ok i e = leb (needs e.decoder) e.bytes && e.synthetic_pid == 0x200 + i

rows_ok : ℕ → List Entry → Bool
rows_ok i [] = true
rows_ok i (e ∷ es) = row_ok i e && rows_ok (i + 1) es

rows_lem :
    (es : List Entry) (k i : ℕ) (e : Entry)
    → rows_ok k es ≡ true
    → get_elem? es i ≡ some e
    → row_ok (k + i) e ≡ true
unfolding rows_ok
rows_lem [] k i e ok h = cc h
rows_lem (x ∷ es) k zero e ok h =
    let same : x ≡ e = cc h in
    ap (λ j. row_ok j e) (omega arith) ∙ subst (λ y. row_ok k y ≡ true) same (and-eq-true _ _ ok).0
rows_lem (x ∷ es) k (suc i) e ok h =
    ap (λ j. row_ok j e) (omega arith) ∙ rows_lem es (k + 1) i e (and-eq-true _ _ ok).1 h

table_ok : rows_ok 0 uds_did_table ≡ true
unfolding rows_ok
table_ok = refl

-- A row's decoder reads no byte behind the number of bytes that the row asks for, so that it never
-- reads what a payload of that length has not filled.
pub decode-bytes :
    (f : FloatOps) (i : ℕ) (e : Entry) (payload : List ℕ)
    → get_elem? uds_did_table i ≡ some e
    → decode f e.decoder (take e.bytes payload) ≡ decode f e.decoder payload
decode-bytes f i e payload h =
    decode-take f e.decoder payload e.bytes
      (leb→le _ _ (and-eq-true _ _ (rows_lem uds_did_table 0 i e table_ok h)).0)

-- The identifiers of the rows are 0x200, 0x201 and on: no two rows share one.
pub synthetic_pid_lem :
    (i : ℕ) (e : Entry) → get_elem? uds_did_table i ≡ some e → e.synthetic_pid ≡ 0x200 + i
synthetic_pid_lem i e h =
    let ok =
      and-eq-true (leb (needs e.decoder) e.bytes) (e.synthetic_pid == 0x200 + (0 + i))
        (rows_lem uds_did_table 0 i e table_ok h) in
    (==_iff e.synthetic_pid (0x200 + (0 + i))).0 ok.1 ∙ omega arith
