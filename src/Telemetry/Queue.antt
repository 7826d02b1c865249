-- ===== src/Telemetry/Queue.antt =====
-- `spoolQueuedBuffers` of src/main.cpp: the filled slots go to the spool, the oldest first. The other
-- task fills no slot meanwhile.
use vorsprung_logger.Base.{ℕ, zero, suc, Bool, true, false, List, Option, none, some, get_elem?}
use vorsprung_logger.Time.Anchor.{Anchor}
use vorsprung_logger.Store as St
use vorsprung_logger.Store.{Store}
use vorsprung_logger.Store.Floats.{Format}
use vorsprung_logger.Buffer.{Buffer}
use vorsprung_logger.Slots.{Slots, free, get_oldest}
use vorsprung_logger.Spool.{World, append, append_unstamped}
use vorsprung_logger.Spool.Media.{Card}
use vorsprung_logger.Telemetry.Packet.{build_packet}

module _ (c : Card) (boot : ℕ) where
  -- A packet goes to the spool with its time, or behind its capture tick.
  abbrev pub spool_packet : Bool → List ℕ → ℕ → World c → World c
  spool_packet true packet tick w = (append c packet w).1
  spool_packet false packet tick w = (append_unstamped c boot packet tick w).1

module _ (c : Card) (show : Format → ℕ → List ℕ) (devid : List ℕ) (a : Anchor) (boot : ℕ) where
  -- One record: built in the cache, spooled, and the cache purged.
  unfoldable pub spool_buffer : Buffer → World c × Store → World c × Store
  spool_buffer b (w, store) =
      let (stamped, built) = build_packet show devid a b store in
      (spool_packet c boot stamped built.text b.tick w, St.purge built)

  -- The slots, the spool and the cache.
  pub record Queue : Type 0 where
    pub slots : Slots
    pub out : World c × Store

  abbrev pub spool_slot : Option Buffer → World c × Store → World c × Store
  spool_slot none out = out
  spool_slot (some b) out = spool_buffer b out

  -- A round of the loop, from what `getOldest` answers, and the rounds after it.
  abbrev pub queue_round : (Queue → Queue) → World c × Store → Option ℕ × Slots → Queue
  queue_round again out (none, m) = record { slots = m; out = out }
  queue_round again out (some i, m) =
      again (record { slots = free i m; out = spool_slot (get_elem? m.slots i) out })

  -- The loop, with at most `fuel` rounds.
  unfoldable pub spool_queued : ℕ → Queue → Queue
  spool_queued zero q = q
  spool_queued (suc fuel) q = queue_round (spool_queued fuel) q.out (get_oldest q.slots)
