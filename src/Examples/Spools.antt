-- ===== src/Examples/Spools.antt =====
-- The spool on a card in memory: tests, and the theorems at concrete worlds.
use vorsprung_logger.Base.{
  ℕ, ◌+◌, ◌≡◌, refl, true, List, [], ◌∷◌, ◌++◌, none, some, replicate, arith, inr,
}
use vorsprung_logger.Text.Cstring.{last_index}
use vorsprung_logger.Text.Number.{digit, digits_text, decimal, atoi, atoi_from}
use vorsprung_logger.Store as St
use vorsprung_logger.Time.Anchor.{Anchor, anchor_is_set}
use vorsprung_logger.Spool.{
  fresh, World, open_outage_file, write_all, count_record, write_parts, write_record, append,
  end_outage, oldest_from, find_oldest_seq, open_next_drain_file, drop_drain_file,
}
use vorsprung_logger.Spool.Path.{spool_path, file_seq}
use vorsprung_logger.Spool.Frame.{frame, Wrote, write_record-frame}
use vorsprung_logger.Spool.Drain.{
  transmit_record, stamp_record, take_record, read_record, drain_one_record,
}
use vorsprung_logger.Spool.Replay.{frames, drain_times, Replays, drain_times-frames}
use vorsprung_logger.Spool.Outage.{append_all, outage-replay}
use vorsprung_logger.Examples.Memory.{put_file, memory_card, content, memory_card-IsCard}

abbrev pub bare : World memory_card
bare = record { spool = fresh; fs = record { listed = []; bytes = λ p. none } }

unfoldable pub spools : Unit {0}
unfolding digit digits_text decimal last_index atoi_from atoi spool_path file_seq open_outage_file
    write_all count_record write_parts write_record append end_outage oldest_from find_oldest_seq
    open_next_drain_file drop_drain_file St.purge transmit_record stamp_record take_record
    read_record drain_one_record anchor_is_set
spools = tt

-- "AB"
abbrev short_packet : List ℕ
short_packet = b'A' ∷ b'B' ∷ []

file_name : file_seq (spool_path 1207) ≡ 1207
unfolding spools
file_name = refl

write_record-frame_example :
    Wrote memory_card content memory_card-IsCard
      (spool_path 1)
      ([] ++ frame (1 ∷ 2 ∷ short_packet))
      (write_record memory_card (1 ∷ 2 ∷ []) short_packet bare)
unfolding spools
write_record-frame_example =
    write_record-frame memory_card content memory_card-IsCard (1 ∷ 2 ∷ []) short_packet
      (spool_path 1) [] bare (inr (refl, refl, refl, refl)) (omega arith) refl

abbrev two_records : List (List ℕ)
two_records = short_packet ∷ (b'C' ∷ []) ∷ []

abbrev waiting : World memory_card
waiting = record {
  spool = record fresh {
    drain = some (record { path = spool_path 1; position = 0 });
    drain_seq = 1;
    next_seq = 2;
  };
  fs = put_file (spool_path 1) (some (frames two_records)) bare.fs;
}

abbrev by_gnss : Anchor
by_gnss = record { src = 3; utc = 1788588001; tick = 10000000 }

drain_times-frames_example :
    Replays memory_card content memory_card-IsCard by_gnss 77
      (λ p. true)
      two_records
      (record { path = spool_path 1; position = 0 })
      (0 + 7)
      waiting.fs
      (drain_times memory_card content memory_card-IsCard by_gnss 77
        (λ p. true)
        2
        waiting
        (St.init (replicate 16 0)))
unfolding spools
drain_times-frames_example =
    drain_times-frames memory_card content memory_card-IsCard by_gnss 77 (λ p. true) two_records []
      (record { path = spool_path 1; position = 0 }) waiting (St.init (replicate 16 0)) refl refl
      refl refl (ground arith)

abbrev ended : World memory_card
ended = end_outage memory_card (append_all memory_card two_records bare).1

outage-replay_example :
    (drain_times memory_card content memory_card-IsCard by_gnss 77
      (λ p. true)
      2
      ended
      (St.init (replicate 16 0))).0
    ≡ some short_packet ∷ some (b'C' ∷ []) ∷ []
unfolding spools
outage-replay_example =
    outage-replay memory_card content memory_card-IsCard by_gnss 77 (λ p. true) short_packet
      ((b'C' ∷ []) ∷ []) bare (St.init (replicate 16 0)) refl refl refl refl (ground arith) refl
      refl refl
