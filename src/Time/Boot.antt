-- ===== src/Time/Boot.antt =====
-- `timeAnchorInit` of src/timeanchor.cpp: the identifier of a boot. What `esp_random` gives is an
-- argument.
use Prim.Native.Nat.{bit_xor}
use vorsprung_logger.Base.{ℕ, ◌+◌, ◌*◌, ◌%◌, u32_mod}

-- The counter that outlives a restart, and the identifier.
pub record Boot : Type 0 where
  pub boot_seq : ℕ
  pub boot_id : ℕ

unfoldable pub anchor_init : ℕ → Boot → Boot
anchor_init random b =
    let seq = (b.boot_seq + 1) % u32_mod in
    record { boot_seq = seq; boot_id = bit_xor random (seq * 2654435761 % u32_mod) }
