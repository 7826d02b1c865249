-- ===== src/Examples/Client.antt =====
-- The telemetry client on a network that answers each packet with a login reply, and counts what is
-- sent.
use vorsprung_logger.Base.{
  ℕ, ◌+◌, ◌-◌, ◌*◌, ◌≤◌, ◌<◌, ◌≡◌, refl, true, false, ltb, if◌then◌else◌, List, [], ◌∷◌, ◌++◌, none,
  some, replicate, arith,
}
use vorsprung_logger.Base.Check.{checks, checks_lem}
use vorsprung_logger.Base.{◌==◌, ==_iff}
use vorsprung_logger.Text.Number.{digit, digits_text, hexadecimal, atoi}
use vorsprung_logger.Store.{Store, checksum, tailer}
use vorsprung_logger.Time.Anchor.{unset}
use vorsprung_logger.Client.{Cell, Device, Client, notify, verify_checksum}
use vorsprung_logger.Client.Checksum.{verify_checksum-tailer}
use vorsprung_logger.Client.Retries.{notify-sent}

abbrev hex_digit : ℕ → ℕ
hex_digit x = if ltb x 65 then x - 48 else x - 55

abbrev hex_value : ℕ → List ℕ → ℕ
hex_value n [] = n
hex_value n (x ∷ xs) = hex_value (n * 16 + hex_digit x) xs

hex_table : checks (λ n. hex_value 0 (hexadecimal n) == n) 256 ≡ true
unfolding checks hexadecimal digits_text digit
hex_table = refl

hex_value-hexadecimal : (n : ℕ) → n < 256 → hex_value 0 (hexadecimal n) ≡ n
hex_value-hexadecimal n h =
    (==_iff (hex_value 0 (hexadecimal n)) n).0
      (checks_lem (λ n. hex_value 0 (hexadecimal n) == n) 256 n h hex_table)

-- "1#EV=1", closed by its checksum.
abbrev reply_body : List ℕ
reply_body = b'1' ∷ b'#' ∷ b'E' ∷ b'V' ∷ b'=' ∷ b'1' ∷ []

abbrev reply : List ℕ
reply = reply_body ++ b'*' ∷ hexadecimal (checksum reply_body)

abbrev pub steady : Cell
steady = record {
  Net = ℕ;
  open_server = λ n. (true, n);
  open_again = λ n. (true, n);
  close = λ n. n;
  check = λ n. (true, n);
  send = λ packet n. (true, n + 1);
  receive = λ n. (some reply, n);
  end = λ n. n;
  begin = λ n. (true, n);
  check_sim = λ n. (true, n);
  setup = λ n. (true, n);
  signal = λ n. (0, n);
  command = λ cells n. (none, n);
  delay = λ ms n. n;
  millis = λ n. 5000;
  ticks = λ n. 5000000;
  hex2uint8 = hex_value 0;
  hex2uint16 = λ cells. 1;
  atoi = atoi;
  atol = atoi;
  overflow = λ days sod. days;
  operator_name = λ net. ([], net);
  address = λ net. ([], net);
  scan_clock = λ cells. none;
}

abbrev pub car : Device
car = record { devid = b'A' ∷ b'1' ∷ []; vin = []; rssi = 0 }

abbrev pub idle : Client steady
idle = record {
  tx_count = 0;
  tx_bytes = 0;
  rx_bytes = 0;
  last_sync_time = 0;
  feedid = 0;
  start_time = 0;
  packets = 0;
  login = false;
  anchor = unset;
  net = 0;
}

abbrev pub stack : List ℕ
stack = replicate 128 0

notify-sent_example : (notify steady car stack 1 none idle).1.net ≤ 0 + 3
notify-sent_example =
    notify-sent steady (λ n. n) (λ packet n. omega arith) (λ n. refl) car stack 1 none idle

-- A packet of one item, not closed yet.
abbrev one_item : Store
one_item = record {
  size = 32;
  text = b'1' ∷ b'#' ∷ b'5' ∷ b',' ∷ [];
  after = replicate 28 0;
  samples = 1;
}

verify_checksum-tailer_example :
    verify_checksum steady (tailer one_item).text ≡ some (b'1' ∷ b'#' ∷ b'5' ∷ [])
verify_checksum-tailer_example =
    verify_checksum-tailer steady hex_value-hexadecimal (b'1' ∷ b'#' ∷ b'5' ∷ []) one_item refl
