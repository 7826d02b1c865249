-- ===== src/Spool.antt =====
-- `RecordSpool` of src/telestore.cpp and include/telestore.h: unsent packets in files on the SD
-- card, one file for an outage, each record behind its length in two bytes. The card is a parameter
-- (`Spool.Media`). A file handle is the path of its file, and a reader's has a position.
pub mod Media
pub mod Path
pub mod Drain
pub mod Frame
pub mod Replay
pub mod Outage
use vorsprung_logger.Base.{
  ℕ, zero, suc, ◌+◌, ◌*◌, ◌/◌, ◌%◌, Bool, true, false, not, ltb, leb, ◌==◌, ◌&&◌, ◌||◌,
  if◌then◌else◌, List, [], ◌∷◌, ◌++◌, Option, none, some, length, take, drop, u8_mod, u16_mod,
  u32_mod, byte_at,
}
use Media.{Card}
use Path.{spool_path, file_seq}

pub record Reader : Type 0 where
  pub path : List ℕ
  pub position : ℕ

pub record Spool : Type 0 where
  pub outage : Option (List ℕ)
  pub drain : Option Reader
  pub outage_seq : ℕ
  pub drain_seq : ℕ
  pub next_seq : ℕ
  pub append_count : ℕ

abbrev pub fresh : Spool
fresh = record {
  outage = none;
  drain = none;
  outage_seq = 0;
  drain_seq = 0;
  next_seq = 1;
  append_count = 0;
}

abbrev pub spool_mark_unstamped : ℕ
spool_mark_unstamped = 0

abbrev pub spool_stamp_prefix : ℕ
spool_stamp_prefix = 13

-- The two bytes in front of a record: its length as a uint16_t, high byte first.
abbrev pub length_bytes : ℕ → List ℕ
length_bytes n = byte_at (n % u16_mod) 8 ∷ byte_at (n % u16_mod) 0 ∷ []

-- The prefix of an unstamped record: the mark, the boot identifier and the capture tick.
abbrev pub stamp_prefix : ℕ → ℕ → List ℕ
stamp_prefix boot tick =
    spool_mark_unstamped
    ∷ byte_at boot 24
    ∷ byte_at boot 16
    ∷ byte_at boot 8
    ∷ byte_at boot 0
    ∷ byte_at tick 56
    ∷ byte_at tick 48
    ∷ byte_at tick 40
    ∷ byte_at tick 32
    ∷ byte_at tick 24
    ∷ byte_at tick 16
    ∷ byte_at tick 8
    ∷ byte_at tick 0
    ∷ []

module _ (c : Card) where
  open c use {
    Fs, begin, has_folder, make_folder, names, open_write, open_read, write, flush, close, read,
    size, remove,
  }

  -- The spool with the card it works on.
  pub record World : Type 0 where
    pub spool : Spool
    pub fs : Fs

  -- The largest sequence number among the files.
  unfoldable pub max_seq : List (List ℕ) → ℕ
  max_seq [] = 0
  max_seq (f ∷ fs) = let n = max_seq fs in if ltb n (file_seq f) then file_seq f else n

  -- `init`. `false` if there is no card. It makes the folder if it is missing, and goes on behind the
  -- files that are there.
  unfoldable pub init : World → Bool × World
  init w =
      let (found, fs₁) = begin w.fs in
      let fs₂ = if has_folder fs₁ then fs₁ else make_folder fs₁ in
      if found
      then (
        true,
        record {
          spool = record (w.spool) { next_seq = (max_seq (names fs₂) + 1) % u32_mod };
          fs = fs₂;
        },
      )
      else (false, record w { fs = fs₁ })

  unfoldable pub open_outage_file : World → Bool × World
  open_outage_file w = elim w.spool.outage [
    | some p ↦ (true, w)
    | none ↦ elim (open_write w.fs (spool_path w.spool.next_seq)) [
      | none ↦ (false, w)
      | some fs' ↦ (
        true,
        record {
          spool = record (w.spool) {
            outage = some (spool_path w.spool.next_seq);
            outage_seq = w.spool.next_seq;
            next_seq = (w.spool.next_seq + 1) % u32_mod;
            append_count = 0;
          };
          fs = fs';
        },
      )
    ]
  ]

  -- One `write`, and whether it took all the bytes.
  unfoldable pub write_all : List ℕ → List ℕ → Fs → Bool × Fs
  write_all path bs fs = let (n, fs') = write fs path bs in (n == length bs, fs')

  abbrev pub prefix_written : List ℕ → List ℕ → Fs → Bool × Fs
  prefix_written path [] fs = (true, fs)
  prefix_written path (b ∷ bs) fs = write_all path (b ∷ bs) fs

  -- `m_appendCount++`, and a flush at every thirtieth record.
  unfoldable pub count_record : List ℕ → World → World
  count_record path w =
      let n = (w.spool.append_count + 1) % u32_mod in
      record {
        spool = record (w.spool) { append_count = n };
        fs = if n % 30 == 0 then flush w.fs path else w.fs;
      }

  -- The three writes of a record. One that falls short ends it.
  unfoldable pub write_parts : List ℕ → List ℕ → List ℕ → World → Bool × World
  write_parts path prefix packet w =
      let (head, fs₁) = write_all path (length_bytes (length prefix + length packet)) w.fs in
      let (front, fs₂) = prefix_written path prefix fs₁ in
      let (body, fs₃) = write_all path packet fs₂ in
      if not head
      then (false, record w { fs = fs₁ })
      else if not front
      then (false, record w { fs = fs₂ })
      else if not body
      then (false, record w { fs = fs₃ })
      else (true, count_record path (record w { fs = fs₃ }))

  abbrev pub write_open : Option (List ℕ) → List ℕ → List ℕ → World → Bool × World
  write_open none prefix packet w = (false, w)
  write_open (some path) prefix packet w = write_parts path prefix packet w

  -- `writeRecord`. No file is open after `openOutageFile` just when it failed.
  unfoldable pub write_record : List ℕ → List ℕ → World → Bool × World
  write_record prefix packet w =
      let (_, w') = open_outage_file w in
      if length packet == 0 then (true, w) else write_open w'.spool.outage prefix packet w'

  unfoldable pub append : List ℕ → World → Bool × World
  append packet w = write_record [] packet w

  -- `appendUnstamped`, with the boot identifier of the session.
  unfoldable pub append_unstamped : ℕ → List ℕ → ℕ → World → Bool × World
  append_unstamped boot packet tick w = write_record (stamp_prefix boot tick) packet w

  abbrev pub shut : List ℕ → Fs → Fs
  shut path fs = close (flush fs path) path

  unfoldable pub end_outage : World → World
  end_outage w = elim w.spool.outage [
    | none ↦ w
    | some path ↦ record {
      spool = record (w.spool) { outage = none; outage_seq = 0; append_count = 0 };
      fs = shut path w.fs;
    }
  ]

  abbrev pub shut_outage : World → World
  shut_outage w = elim w.spool.outage [
    | none ↦ w
    | some path ↦ record {
      spool = record (w.spool) { outage = none; outage_seq = 0 };
      fs = shut path w.fs;
    }
  ]

  abbrev pub close_drain : World → World
  close_drain w = elim w.spool.drain [
    | none ↦ w
    | some r ↦ record {
      spool = record (w.spool) { drain = none; drain_seq = 0 };
      fs = close w.fs r.path;
    }
  ]

  unfoldable pub close_for_standby : World → World
  close_for_standby w = close_drain (shut_outage w)

  -- The loop of `findOldestSeq` over the names.
  unfoldable pub oldest_from : ℕ → List (List ℕ) → Option ℕ → Option ℕ
  oldest_from exclude [] oldest = oldest
  oldest_from exclude (f ∷ fs) oldest =
      let n = file_seq f in
      let first : Bool = elim oldest [ none ↦ true | some o ↦ ltb n o ] in
      oldest_from exclude fs (if (n == 0 || n == exclude) || not first then oldest else some n)

  unfoldable pub find_oldest_seq : ℕ → Fs → Option ℕ
  find_oldest_seq exclude fs = oldest_from exclude (names fs) none

  unfoldable pub has_files_to_drain : World → Bool
  has_files_to_drain w = elim w.spool.drain [
    | some r ↦ true
    | none ↦ elim (find_oldest_seq w.spool.outage_seq w.fs) [ none ↦ false | some n ↦ true ]
  ]

  abbrev pub open_seq : Option ℕ → World → World
  open_seq none w = w
  open_seq (some seq) w =
      if open_read w.fs (spool_path seq)
      then record w {
        spool = record (w.spool) {
          drain = some (record { path = spool_path seq; position = 0 });
          drain_seq = seq;
        };
      }
      else w

  -- `openNextDrainFile`. It failed if no reader is open behind it.
  unfoldable pub open_next_drain_file : World → World
  open_next_drain_file w = elim w.spool.drain [
    | some r ↦ w
    | none ↦ open_seq (find_oldest_seq w.spool.outage_seq w.fs) w
  ]

  -- `dropDrainFile`: the file is closed and removed.
  unfoldable pub drop_drain_file : World → World
  drop_drain_file w =
      let fs' : Fs = elim w.spool.drain [ none ↦ w.fs | some r ↦ close w.fs r.path ] in
      record {
        spool = record (w.spool) { drain = none; drain_seq = 0 };
        fs = remove fs' (spool_path w.spool.drain_seq);
      }
