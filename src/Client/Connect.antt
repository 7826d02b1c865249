-- ===== src/Client/Connect.antt =====
-- `connect`, `ping` and `inbound` of `TeleClientUDP` (src/teleclient.cpp).
use vorsprung_logger.Base.{
  ℕ, zero, suc, Bool, true, false, ◌==◌, if◌then◌else◌, List, [], ◌∷◌, Option, none, some, drop,
}
use vorsprung_logger.Text.Cstring.{upto_nul, find}
use vorsprung_logger.Client.{
  event_login, event_sync, event_reconnect, event_ping, Cell, Device, Client, verify_checksum,
  count_received, notify,
}

module _ (c : Cell) where
  open c use {open_server, open_again, close, check, receive, delay, millis}

  -- `reset`
  unfoldable pub reset : Client c → Client c
  reset t = record t {
    tx_count = 0;
    tx_bytes = 0;
    rx_bytes = 0;
    login = false;
    start_time = millis t.net;
  }

  -- The loop of `connect`, with `left` attempts to go.
  unfoldable pub login_attempt : ℕ → Device → List ℕ → ℕ → Client c → Bool × Client c
  login_attempt zero d memory event t = (false, t)
  login_attempt (suc left) d memory event t =
      let (opened, net₁) = open_server t.net in
      let (alive, net₂) = check net₁ in
      let (answered, u) = notify c d memory event none (record t { net = net₁ }) in
      let (still, net₃) = check u.net in
      elim opened [
        | false ↦ elim alive [
          | false ↦ (false, record t { net = net₂ })
          | true ↦ login_attempt left d memory event (record t { net = delay 3000 net₂ })
        ]
        | true ↦ elim answered [
          | true ↦ (true, u)
          | false ↦ elim still [
            | false ↦ (false, record u { net = net₃ })
            | true ↦ login_attempt left d memory event (record u { net = close net₃ })
          ]
        ]
      ]

  abbrev pub connect_event : Client c → ℕ
  connect_event t = if t.login then event_reconnect else event_login

  -- The times that `connect` notes at its end.
  abbrev pub note_times : ℕ → Bool × Client c → Bool × Client c
  note_times event (success, t) =
      let started : ℕ = if event == event_login then millis t.net else t.start_time in
      let synced : ℕ = if success then millis t.net else t.last_sync_time in
      (success, record t { start_time = started; last_sync_time = synced })

  unfoldable pub connect : Bool → Device → List ℕ → Client c → Bool × Client c
  connect true d memory t =
      let (opened, net') = open_again (close t.net) in (opened, record t { net = net' })
  connect false d memory t =
      note_times (connect_event t)
        (login_attempt 3 d memory (connect_event t) (record t { net = close t.net; packets = 0 }))

  -- The loop of `ping`, with `left` attempts to go.
  unfoldable pub ping_attempt : ℕ → Device → List ℕ → Client c → Bool × Client c
  ping_attempt zero d memory t = (false, t)
  ping_attempt (suc left) d memory t =
      let (opened, net₁) = open_server t.net in
      let (answered, u) = notify c d memory event_ping none (record t { net = net₁ }) in
      elim opened [
        | false ↦ ping_attempt left d memory (record t { net = net₁ })
        | true ↦ elim answered [
          | true ↦ (true, u)
          | false ↦ ping_attempt left d memory (record u { net = delay 1000 (close u.net) })
        ]
      ]

  unfoldable pub ping : Device → List ℕ → Client c → Bool × Client c
  ping d memory t =
      let (success, u) = ping_attempt 3 d memory t in
      (success, if success then record u { last_sync_time = millis u.net } else u)

  -- What `inbound` does with a text that has passed the check.
  abbrev inbound_event : List ℕ → Option (List ℕ) → Client c → Client c
  inbound_event cells none t = t
  inbound_event cells (some p) t =
      let fed : ℕ = if c.atoi (drop 3 p) == event_sync then c.hex2uint16 cells else t.feedid in
      record t { feedid = fed; last_sync_time = millis t.net }

  abbrev inbound_text : Option (List ℕ) → Client c → Client c
  inbound_text none t = t
  inbound_text (some cells) t = inbound_event cells (find (b'E' ∷ b'V' ∷ b'=' ∷ []) cells) t

  abbrev inbound_bytes : Option (List ℕ) → c.Net → Client c → Client c
  inbound_bytes none net t = record t { net = net }
  inbound_bytes (some []) net t = record t { net = net }
  inbound_bytes (some (x ∷ xs)) net t =
      inbound_text (verify_checksum c (upto_nul (x ∷ xs))) (count_received c (x ∷ xs) net t)

  unfoldable pub inbound : Client c → Client c
  inbound t = let (cells, net') = receive t.net in inbound_bytes cells net' t
