-- ===== src/Telemetry/Packet.antt =====
-- `buildPacket` of src/main.cpp: one slot becomes one packet.
use vorsprung_logger.Base.{ℕ, Bool, true, false, List, Option, none, some}
use vorsprung_logger.Time.Anchor.{Anchor, anchor_resolve}
use vorsprung_logger.Store.{Store, header, tailer}
use vorsprung_logger.Store.Log.{timestamp, write_stamp}
use vorsprung_logger.Store.Floats.{Format}
use vorsprung_logger.Buffer.{Buffer, serialize}

-- The packet without stamp and tail.
unfoldable pub packet_body : (Format → ℕ → List ℕ) → List ℕ → Buffer → Store → Store
packet_body show devid b s = serialize show b (timestamp b.timestamp (header devid s))

abbrev pub stamp_packet : Option ℕ → Store → Bool × Store
stamp_packet none s = (false, tailer s)
stamp_packet (some utc) s = (true, tailer (write_stamp utc s))

unfoldable pub build_packet :
    (Format → ℕ → List ℕ) → List ℕ → Anchor → Buffer → Store → Bool × Store
build_packet show devid a b s = stamp_packet (anchor_resolve a b.tick) (packet_body show devid b s)
