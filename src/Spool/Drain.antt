-- ===== src/Spool/Drain.antt =====
-- `RecordSpool::drainOneRecord` of src/telestore.cpp. Whether `TeleClientUDP::transmit` sends a
-- packet is a parameter.
use vorsprung_logger.Base.{
  ℕ, ◌+◌, ◌*◌, Bool, true, false, not, ltb, leb, ◌==◌, ◌&&◌, ◌||◌, if◌then◌else◌, List, [], ◌∷◌,
  Option, none, some, length, take, drop, get_or, u8_mod,
}
use vorsprung_logger.Time.Anchor.{Anchor, anchor_is_set, anchor_resolve}
use vorsprung_logger.Store as St
use vorsprung_logger.Store.{Store}
use vorsprung_logger.Store.Restamp.{restamp}
use vorsprung_logger.Spool.{
  Reader, World, spool_mark_unstamped, spool_stamp_prefix, open_next_drain_file, drop_drain_file,
}
use vorsprung_logger.Spool.Media.{Card}

abbrev pub serialize_buffer_size : ℕ
serialize_buffer_size = 1024

abbrev pub max_record : ℕ
max_record = serialize_buffer_size + spool_stamp_prefix

-- Bytes as a number, the first the highest.
unfoldable pub big_endian : ℕ → List ℕ → ℕ
big_endian n [] = n
big_endian n (b ∷ bs) = big_endian (n * u8_mod + b) bs

-- The two numbers of a stamp prefix.
abbrev pub boot_of : List ℕ → ℕ
boot_of bytes = big_endian 0 (take 4 (drop 1 bytes))

abbrev pub tick_of : List ℕ → ℕ
tick_of bytes = big_endian 0 (take 8 (drop 5 bytes))

abbrev pub is_unstamped : List ℕ → Bool
is_unstamped bytes =
    ltb spool_stamp_prefix (length bytes) && get_or bytes 0 1 == spool_mark_unstamped

module _ (c : Card) where
  -- What a call returns, the packet that it tried to send, and what it leaves.
  pub record Drained : Type 0 where
    pub result : Bool
    pub tried : Option (List ℕ)
    pub world : World c
    pub store : Store

  abbrev pub at_position : Reader → ℕ → World c → World c
  at_position r n w = record w {
    spool = record (w.spool) { drain = some (record r { position = n }) };
  }

  abbrev pub closed : Reader → World c → World c
  closed r w = record {
    spool = record (w.spool) { drain = none; drain_seq = 0 };
    fs = c.close w.fs r.path;
  }

  abbrev pub dropped : World c → Store → Drained
  dropped w store = record {
    result = true;
    tried = none;
    world = drop_drain_file c w;
    store = store;
  }

  module _ (a : Anchor) (boot : ℕ) (send : List ℕ → Bool) where
    -- The end of the call: a failed send closes the file.
    unfoldable pub transmit_record : List ℕ → Reader → ℕ → World c → Store → Drained
    transmit_record out r next w store =
        if send out
        then record {
          result = true;
          tried = some out;
          world = at_position r next w;
          store = St.purge store;
        }
        else record { result = false; tried = some out; world = closed r w; store = St.purge store }

    -- A record with a prefix: dropped if it is from another boot, left in place if its tick has no
    -- time yet, else stamped and sent.
    unfoldable pub stamp_record : List ℕ → Reader → ℕ → World c → Store → Drained
    stamp_record bytes r next w store =
        if not (boot_of bytes == boot)
        then record { result = true; tried = none; world = at_position r next w; store = store }
        else elim (anchor_resolve a (tick_of bytes)) [
          | none ↦ record { result = false; tried = none; world = w; store = store }
          | some utc ↦
              let stamped = restamp utc (drop spool_stamp_prefix bytes) store in
              transmit_record stamped.text r next w stamped
        ]

    unfoldable pub take_record : List ℕ → Reader → ℕ → World c → Store → Drained
    take_record bytes r next w store =
        if is_unstamped bytes
        then stamp_record bytes r next w store
        else transmit_record bytes r next w store

    abbrev pub record_length : List ℕ → ℕ
    record_length head = get_or head 0 0 * u8_mod + get_or head 1 0

    -- The reads of one record at the reader's position; a file that does not parse is dropped.
    unfoldable pub read_record : Reader → World c → Store → Drained
    read_record r w store =
        let head = c.read w.fs r.path r.position 2 in
        let len = record_length head in
        let bytes = c.read w.fs r.path (r.position + 2) len in
        if leb (c.size w.fs r.path) r.position
        then dropped w store
        else if not (length head == 2)
        then dropped w store
        else if len == 0 || ltb max_record len
        then dropped w store
        else if not (length bytes == len)
        then dropped w store
        else take_record bytes r (r.position + 2 + len) w store

    unfoldable pub drain_one_record : World c → Store → Drained
    drain_one_record w store =
        let w' = open_next_drain_file c w in
        if not (anchor_is_set a)
        then record { result = false; tried = none; world = w; store = store }
        else elim w'.spool.drain [
          | none ↦ record { result = false; tried = none; world = w'; store = store }
          | some r ↦ read_record r w' store
        ]
