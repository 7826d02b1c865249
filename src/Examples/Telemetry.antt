-- ===== src/Examples/Telemetry.antt =====
-- The telemetry task with a card in memory, on a network that takes nothing.
use vorsprung_logger.Base.{◌≡◌, refl, false, [], ◌∷◌, ◌++◌, some, arith, inr}
use vorsprung_logger.Base.Int.{◌+ℤ◌, pos}
use vorsprung_logger.Time.Anchor.{unset, delta_sec, anchor_resolve}
use vorsprung_logger.Store.Log.{timestamp}
use vorsprung_logger.Store.Restamp.{restamp}
use vorsprung_logger.Buffer.{word_at, words_at, log_element, serialize_from, serialize}
use vorsprung_logger.Spool.{stamp_prefix}
use vorsprung_logger.Spool.Path.{spool_path}
use vorsprung_logger.Spool.Frame.{frame}
use vorsprung_logger.Client.{Cell, Client, transmit}
use vorsprung_logger.Telemetry.Flags.{working, cell_connected, Flags, set}
use vorsprung_logger.Telemetry.Packet.{packet_body, build_packet}
use vorsprung_logger.Telemetry.Queue.{spool_queued}
use vorsprung_logger.Telemetry.Task.{Setting, Task}
use vorsprung_logger.Telemetry.Loop.{live_turn, working_turn}
use vorsprung_logger.Telemetry.Order.{taken, Emptied, spool_queued_lem}
use vorsprung_logger.Telemetry.Link.{IsLink, working_turn-IsLink}
use vorsprung_logger.Telemetry.Backstamp.{build_packet-restamp}
use vorsprung_logger.Telemetry.Kept.{live_turn-spools}
use vorsprung_logger.Examples.Memory.{memory_card, content, memory_card-IsCard}
use vorsprung_logger.Examples.Times.{by_network}
use vorsprung_logger.Examples.Packets.{caches, blank, whole_number, full, both, devid}
use vorsprung_logger.Examples.Spools.{spools, bare}
use vorsprung_logger.Examples.Client.{steady, car, stack}

packets : Unit {0}
unfolding caches timestamp word_at words_at log_element serialize_from serialize packet_body
    build_packet delta_sec anchor_resolve ◌+ℤ◌
packets = tt

build_packet-restamp_example :
    (restamp 1788587991
      (build_packet whole_number devid unset full (blank 200)).1.text
      (blank 200)).text
    ≡ (build_packet whole_number devid by_network full (blank 200)).1.text
unfolding packets
build_packet-restamp_example =
    build_packet-restamp whole_number devid unset by_network full (blank 200) (blank 200) 1788587991
      (λ fmt v. omega arith) (omega arith) (omega arith) refl (omega arith) (omega arith) refl refl

spool_queued_lem_example :
    Emptied memory_card whole_number devid unset 77
      (taken 2 both)
      0
      both
      (bare, blank 200)
      (spool_queued memory_card whole_number devid unset 77 2
        (record { slots = both; out = (bare, blank 200) }))
spool_queued_lem_example =
    spool_queued_lem memory_card whole_number devid unset 77 both (bare, blank 200)

-- Nothing is sent.
abbrev deaf : Cell
deaf = record steady { send = λ packet n. (false, n) }

abbrev offline : Setting
offline = record { card = memory_card; cell = deaf; show = whole_number; boot = 77; memory = stack }

abbrev nobody : Client deaf
nobody = record {
  tx_count = 0;
  tx_bytes = 0;
  rx_bytes = 0;
  last_sync_time = 0;
  feedid = 0;
  start_time = 0;
  packets = 0;
  login = false;
  anchor = unset;
  net = 0;
}

abbrev under_way : Flags
under_way = set (working ∷ cell_connected ∷ []) (λ f. false)

abbrev driving : Task offline
driving = record {
  flags = under_way;
  slots = both;
  world = bare;
  store = blank 200;
  client = nobody;
  device = car;
  device_temp = pos 30;
  timeouts_net = 0;
  conn_errors = 0;
  last_rssi_time = 0;
}

working_turn-IsLink_example : IsLink (working_turn offline driving).1.flags
working_turn-IsLink_example = working_turn-IsLink offline driving refl

live_turn-spools_example :
    content (live_turn offline 1 full both driving).world.fs (spool_path 1)
    ≡ some (
        []
        ++ frame (
            stamp_prefix 77 5000
            ++ (build_packet whole_number car.devid unset full (blank 200)).1.text))
unfolding packets spools transmit
live_turn-spools_example =
    live_turn-spools offline content memory_card-IsCard 1 full both driving (spool_path 1) []
      (inr (refl, refl, refl, refl)) refl refl
