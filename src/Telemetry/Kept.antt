-- ===== src/Telemetry/Kept.antt =====
-- A live packet that cannot be sent is not lost: it stands at the end of the outage file
-- (src/main.cpp, src/telestore.cpp).
use vorsprung_logger.Base.{
  ℕ, ◌≡◌, ◌≢◌, refl, ap, ◌∙◌, Bool, true, false, List, [], ◌∷◌, ◌++◌, Option, none, some, length,
  length-append, arith,
}
use vorsprung_logger.Store.{Store, trim, tailer}
use vorsprung_logger.Buffer.{Buffer}
use vorsprung_logger.Slots.{Slots}
use vorsprung_logger.Spool.{World, stamp_prefix, write_record, append, append_unstamped}
use vorsprung_logger.Spool.Media.{IsCard}
use vorsprung_logger.Spool.Frame.{frame, Target, write_record-frame}
use vorsprung_logger.Client.{transmit}
use vorsprung_logger.Telemetry.Packet.{stamp_packet, build_packet}
use vorsprung_logger.Telemetry.Queue.{spool_packet}
use vorsprung_logger.Telemetry.Task.{Setting, Task}
use vorsprung_logger.Telemetry.Loop.{live_turn}

-- What stands in front of the packet in its record.
abbrev pub prefix_of : Bool → ℕ → ℕ → List ℕ
prefix_of true boot tick = []
prefix_of false boot tick = stamp_prefix boot tick

tailer_some : (s : Store) → length (tailer s).text ≢ 0
unfolding tailer
tailer_some s h = omega (arith, h, length-append (trim s).text (b'*' ∷ _))

stamp_packet_some : (o : Option ℕ) (s : Store) → length (stamp_packet o s).1.text ≢ 0
stamp_packet_some none s = tailer_some s
stamp_packet_some (some utc) s = tailer_some _

module _ (g : Setting) (content : g.card.Fs → List ℕ → Option (List ℕ))
    (card : IsCard g.card content) where
  spool_packet_lem :
      (stamped : Bool) (packet : List ℕ) (tick : ℕ) (w : World g.card)
      → spool_packet g.card g.boot stamped packet tick w
        ≡ (write_record g.card (prefix_of stamped g.boot tick) packet w).1
  unfolding append append_unstamped
  spool_packet_lem true packet tick w = refl
  spool_packet_lem false packet tick w = refl

  -- If the network does not take the packet of a live slot, and the card takes its record, then the
  -- outage file ends in that record: the packet, behind its capture tick if it has no time yet.
  pub live_turn-spools :
      (i : ℕ) (b : Buffer) (m : Slots) (t : Task g) (p old : List ℕ)
      → Target g.card content card t.world p old
      → (transmit g.cell
          (build_packet g.show t.device.devid t.client.anchor b t.store).1.text
          t.client).0
        ≡ false
      → (write_record g.card
          (prefix_of (build_packet g.show t.device.devid t.client.anchor b t.store).0 g.boot b.tick)
          (build_packet g.show t.device.devid t.client.anchor b t.store).1.text
          t.world).0
        ≡ true
      → content (live_turn g i b m t).world.fs p
        ≡ some (
            old
            ++ frame (
                prefix_of
                  (build_packet g.show t.device.devid t.client.anchor b t.store).0
                  g.boot
                  b.tick
                ++ (build_packet g.show t.device.devid t.client.anchor b t.store).1.text))
  unfolding live_turn
  live_turn-spools i b m t p old at failed written = rw failed (
      ap (λ (w : World g.card). content w.fs p) (spool_packet_lem made.0 made.1.text b.tick t.world)
      ∙ (write_record-frame g.card content card (prefix_of made.0 g.boot b.tick) made.1.text p old
          t.world at some_text written).holds)
    where
      made : Bool × Store
      made = build_packet g.show t.device.devid t.client.anchor b t.store

      some_text : length made.1.text ≢ 0
      some_text = unfold build_packet in stamp_packet_some _ _
