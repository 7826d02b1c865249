-- ===== src/Base/Words.antt =====
-- Machine words as native numbers, wrapped by `%`, and bytes of a word in big-endian order.
use Prim.Native.Nat.{ℕ, ◌+◌, ◌-◌, ◌/◌, ◌%◌, ◌^◌}

abbrev pub u8_mod : ℕ
u8_mod = 2 ^ 8

abbrev pub u16_mod : ℕ
u16_mod = 2 ^ 16

abbrev pub u32_mod : ℕ
u32_mod = 2 ^ 32

abbrev pub u64_mod : ℕ
u64_mod = 2 ^ 64

-- uint32_t subtraction.
abbrev pub sub32 : ℕ → ℕ → ℕ
sub32 x less = (x + (u32_mod - less % u32_mod)) % u32_mod

abbrev pub byte_at : ℕ → ℕ → ℕ
byte_at w k = w / 2 ^ k % 2 ^ 8
