-- ===== src/Client.antt =====
-- `TeleClientUDP` of src/teleclient.cpp. The modem and the C library's number readers are the
-- parameter `Cell`; the device's identifier, the VIN and the signal strength are arguments.
pub mod Checksum
pub mod Connect
pub mod NetworkTime
pub mod Session
pub mod Retries
use vorsprung_logger.Base.{
  ℕ, zero, suc, ◌+◌, ◌-◌, ◌%◌, ◌*◌, Bool, true, false, not, leb, ◌==◌, ◌||◌, if◌then◌else◌, List,
  [], ◌∷◌, ◌++◌, Option, none, some, length, take, drop, replicate, u8_mod, u32_mod,
}
use vorsprung_logger.Text.Cstring.{upto_nul, last_index, first_index, find}
use vorsprung_logger.Text.Number.{decimal, hexadecimal, signed_decimal}
use vorsprung_logger.Store as St
use vorsprung_logger.Store.{Store, dispatch, header, checksum, tailer}
use vorsprung_logger.Time.Anchor.{Anchor, Reading, anchor_set, time_src_server}

abbrev pub event_login : ℕ
event_login = 1

abbrev pub event_logout : ℕ
event_logout = 2

abbrev pub event_sync : ℕ
event_sync = 3

abbrev pub event_reconnect : ℕ
event_reconnect = 4

abbrev pub event_ack : ℕ
event_ack = 6

abbrev pub event_ping : ℕ
event_ping = 7

-- The six numbers of the modem's clock, the year without its century.
pub record CivilTime : Type 0 where
  pub yy : ℕ
  pub mo : ℕ
  pub dd : ℕ
  pub hh : ℕ
  pub mi : ℕ
  pub ss : ℕ

-- The modem, its network and the clock beside them.
pub record Cell : Type 1 where
  pub Net : Type 0
  -- `open` of the server, and `open(0, 0)`.
  pub open_server : Net → Bool × Net
  pub open_again : Net → Bool × Net
  pub close : Net → Net
  pub check : Net → Bool × Net
  pub send : List ℕ → Net → Bool × Net
  -- The bytes received; `none` is a null pointer.
  pub receive : Net → Option (List ℕ) × Net
  pub end : Net → Net
  -- `begin`, `checkSIM`, `setup`, `RSSI` as a 32-bit word, and the answer to an AT command.
  pub begin : Net → Bool × Net
  pub check_sim : Net → Bool × Net
  pub setup : Net → Bool × Net
  pub signal : Net → ℕ × Net
  pub command : List ℕ → Net → Option (List ℕ) × Net
  pub delay : ℕ → Net → Net
  pub millis : Net → ℕ
  pub ticks : Net → ℕ
  -- `hex2uint8`, `hex2uint16`, `atoi`, and `atol` as a uint32_t.
  pub hex2uint8 : List ℕ → ℕ
  pub hex2uint16 : List ℕ → ℕ
  pub atoi : List ℕ → ℕ
  pub atol : List ℕ → ℕ
  -- `sscanf` of a date and a time, if it reads all six numbers.
  pub scan_clock : List ℕ → Option CivilTime
  -- What becomes of a signed product of days that leaves its range (`Time.Civil`).
  pub overflow : ℕ → ℕ → ℕ
  -- `getOperatorName` and `getIP`, whose texts are only printed.
  pub operator_name : Net → List ℕ × Net
  pub address : Net → List ℕ × Net

-- `rssi` as a 32-bit word, and the texts of the other two.
pub record Device : Type 0 where
  pub devid : List ℕ
  pub vin : List ℕ
  pub rssi : ℕ

-- An item of the packet that is left out if there is nothing to say.
abbrev optional : Bool → List ℕ → Store → Store
optional there item s = if there then dispatch item s else s

abbrev payload_item : Option (List ℕ) → Store → Store
payload_item none s = s
payload_item (some payload) s = dispatch payload s

-- The packet of an event, at a time in milliseconds, in a cache that holds `memory`, of 128 bytes
-- on the device.
unfoldable pub event_packet : Device → ℕ → Option (List ℕ) → ℕ → List ℕ → Store
event_packet d event payload now memory =
    let s = header d.devid (St.init memory) in
    let s = dispatch (b'E' ∷ b'V' ∷ b'=' ∷ hexadecimal event) s in
    let s = dispatch (b'T' ∷ b'S' ∷ b'=' ∷ decimal now) s in
    let s = dispatch (b'I' ∷ b'D' ∷ b'=' ∷ d.devid) s in
    let s = optional (not (d.rssi == 0)) (b'S' ∷ b'S' ∷ b'I' ∷ b'=' ∷ signed_decimal d.rssi) s in
    let s = optional (not (length d.vin == 0)) (b'V' ∷ b'I' ∷ b'N' ∷ b'=' ∷ d.vin) s in
    tailer (payload_item payload s)

module _ (c : Cell) where
  open c use {Net, open_server, open_again, close, check, send, receive, end, delay, millis, ticks}

  pub record Client : Type 0 where
    pub tx_count : ℕ
    pub tx_bytes : ℕ
    pub rx_bytes : ℕ
    pub last_sync_time : ℕ
    pub feedid : ℕ
    pub start_time : ℕ
    pub packets : ℕ
    pub login : Bool
    pub anchor : Anchor
    pub net : Net

  -- `verifyChecksum`: the text before the last '*', if the number behind it is its checksum.
  unfoldable pub verify_at : Option ℕ → List ℕ → Option (List ℕ)
  verify_at none cells = none
  verify_at (some i) cells =
      if c.hex2uint8 (drop (i + 1) cells) == checksum (take i cells)
      then some (take i cells)
      else none

  unfoldable pub verify_checksum : List ℕ → Option (List ℕ)
  verify_checksum cells = verify_at (last_index b'*' cells) cells

  -- The reply to a login: the server's time, then the text up to the comma behind "SN=".
  abbrev take_time : Option (List ℕ) → Client → Client
  take_time none t = t
  take_time (some p) t = record t {
    anchor =
        (anchor_set
          (record { source = time_src_server; utc_sec = c.atol (drop 3 p); tick_us = ticks t.net })
          t.anchor).anchor;
  }

  abbrev cut_comma : Option ℕ → List ℕ → List ℕ → List ℕ
  cut_comma none p cells = cells
  cut_comma (some j) p cells = take (length cells - length p + j) cells

  abbrev cut_name : Option (List ℕ) → List ℕ → List ℕ
  cut_name none cells = cells
  cut_name (some p) cells = cut_comma (first_index b',' p) p cells

  -- What a good reply to an event changes.
  unfoldable pub take_reply : ℕ → List ℕ → Client → Client
  take_reply event cells t =
      if event == event_login
      then record (take_time (find (b'T' ∷ b'M' ∷ b'=' ∷ []) cells) t) {
        feedid = c.hex2uint16 (cut_name (find (b'S' ∷ b'N' ∷ b'=' ∷ []) cells) cells);
        login = true;
      }
      else if event == event_logout
      then record t { login = false }
      else t

  -- A reply is for the event if it has its number.
  unfoldable pub good_reply : ℕ → List ℕ → Option (List ℕ)
  good_reply event cells = elim (verify_checksum cells) [
    | none ↦ none
    | some text ↦ elim (find (b'E' ∷ b'V' ∷ b'=' ∷ decimal event) text) [
      | none ↦ none
      | some p ↦ some text
    ]
  ]

  abbrev count_received : List ℕ → Net → Client → Client
  count_received cells net t = record t {
    rx_bytes = (t.rx_bytes + length cells) % u32_mod;
    net = net;
  }

  -- The loop of `notify`, with `left` attempts to go.
  unfoldable pub attempt : ℕ → ℕ → List ℕ → Client → Bool × Client
  attempt zero event packet t = (false, t)
  attempt (suc left) event packet t =
      let (sent, net₁) = send packet t.net in
      let (reply, net₂) = receive net₁ in
      elim sent [
        | false ↦ (false, record t { net = net₁ })
        | true ↦ elim (event == event_ack) [
          | true ↦ (true, record t { net = net₁ })
          | false ↦ elim reply [
            | none ↦ attempt left event packet (record t { net = net₂ })
            | some [] ↦ attempt left event packet (record t { net = net₂ })
            | some (x ∷ xs) ↦ elim (good_reply event (upto_nul (x ∷ xs))) [
              | none ↦ attempt left event packet (count_received (x ∷ xs) net₂ t)
              | some text ↦ (true, take_reply event text (count_received (x ∷ xs) net₂ t))
            ]
          ]
        ]
      ]

  -- `notify`, whose cache has arbitrary bytes at first.
  unfoldable pub notify : Device → List ℕ → ℕ → Option (List ℕ) → Client → Bool × Client
  notify d memory event payload t =
      attempt 3 event (event_packet d event payload (millis t.net) memory).text t

  -- `transmit`: at the 64th packet the socket is opened anew.
  abbrev refresh : Client → Client
  refresh t =
      let n = (t.packets + 1) % u8_mod in
      if leb 64 n
      then record t { packets = 0; net = (open_again (close t.net)).1 }
      else record t { packets = n }

  unfoldable pub transmit : List ℕ → Client → Bool × Client
  transmit packet t =
      let t' = refresh t in
      let (sent, net') = send packet t'.net in
      if sent
      then (
        true,
        record t' {
          tx_bytes = (t'.tx_bytes + length packet) % u32_mod;
          tx_count = (t'.tx_count + 1) % u32_mod;
          net = net';
        },
      )
      else (false, record t' { net = net' })

  -- `shutdown`
  unfoldable pub shutdown : Device → List ℕ → Client → Client
  shutdown d memory t =
      let (_, u) = notify d memory event_logout none t in
      let t' : Client = if t.login then record u { login = false } else t in
      record t' { net = end t'.net }
