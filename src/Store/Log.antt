-- ===== src/Store/Log.antt =====
-- `CStorage::log` for whole numbers (src/telestore.cpp): one item, `pid:value;value`, printed into a
-- buffer of 256 bytes whose end `n` is a byte, and handed to `dispatch`. Also `timestamp`, and
-- `timeWriteStamp` of src/timeanchor.cpp.
use vorsprung_logger.Base.{
  ℕ, ◌+◌, ◌-◌, ◌%◌, List, [], ◌∷◌, ◌++◌, length, take, drop, replicate, u8_mod,
}
use vorsprung_logger.Text.Number.{decimal, hexadecimal, signed_decimal}
use vorsprung_logger.Store.{Store, dispatch}
use vorsprung_logger.Time.Civil.{epoch_to_gps}

abbrev pub buf_size : ℕ
buf_size = 256

-- The local buffer and the byte `n`.
pub record Line : Type 0 where
  pub buf : List ℕ
  pub n : ℕ

-- Bytes written at an index.
abbrev pub write_at : ℕ → List ℕ → List ℕ → List ℕ
write_at i bs buf = take i buf ++ bs ++ drop (i + length bs) buf

-- `n += snprintf(buf + n, sizeof(buf) - n, ...)` of a text: it is cut to the room there is, and
-- `n` moves by its full length.
abbrev pub print : List ℕ → Line → Line
print t l = record {
  buf = write_at l.n (take (buf_size - l.n - 1) t ++ 0 ∷ []) l.buf;
  n = (l.n + length t) % u8_mod;
}

abbrev pub empty_line : Line
empty_line = record { buf = replicate buf_size 0; n = 0 }

-- The loop over `values[1]` and on.
unfoldable pub print_rest : (ℕ → List ℕ) → List ℕ → Line → Line
print_rest show [] l = l
print_rest show (v ∷ vs) l = print_rest show vs (print (b';' ∷ show v) l)

unfoldable pub item_line : (ℕ → List ℕ) → ℕ → ℕ → List ℕ → Line
item_line show pid v vs = print_rest show vs (print (hexadecimal pid ++ b':' ∷ show v) empty_line)

-- `log` of the values `v` and `vs`, each printed by `show`.
unfoldable pub log : (ℕ → List ℕ) → ℕ → ℕ → List ℕ → Store → Store
log show pid v vs s = let l = item_line show pid v vs in dispatch (take l.n l.buf) s

abbrev pub log_unsigned : ℕ → ℕ → List ℕ → Store → Store
log_unsigned = log decimal

abbrev pub log_signed : ℕ → ℕ → List ℕ → Store → Store
log_signed = log signed_decimal

abbrev pub pid_timestamp : ℕ
pid_timestamp = 0

abbrev pub pid_gps_time : ℕ
pid_gps_time = 0x10

abbrev pub pid_gps_date : ℕ
pid_gps_date = 0x11

abbrev pub pid_abs_time : ℕ
pid_abs_time = 0x300

unfoldable pub timestamp : ℕ → Store → Store
timestamp ts s = log_unsigned pid_timestamp ts [] s

unfoldable pub write_stamp : ℕ → Store → Store
write_stamp utc s =
    let g = epoch_to_gps utc in
    log_unsigned pid_abs_time utc []
      (log_unsigned pid_gps_date g.date [] (log_unsigned pid_gps_time g.time [] s))
