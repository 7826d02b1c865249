-- ===== src/Spool/Outage.antt =====
-- A whole outage (src/telestore.cpp): what is appended while the link is down is what the drain sends
-- when it is back.
use vorsprung_logger.Base.{
  ℕ, suc, ◌≡◌, refl, sym, ap, ◌∙◌, inl, inr, Bool, true, ◌==◌, ◌&&◌, and-eq-true, List, [], ◌∷◌,
  ◌++◌, append-nil, append_assoc, length, map, All, Option, none, some, arith, Bool-cases,
}
use vorsprung_logger.Time.Anchor.{Anchor, anchor_is_set}
use vorsprung_logger.Store.{Store}
use vorsprung_logger.Spool.{
  World, open_outage_file, count_record, write_parts, write_open, write_record, append, end_outage,
  find_oldest_seq, open_next_drain_file,
}
use vorsprung_logger.Spool.Media.{Card, IsCard}
use vorsprung_logger.Spool.Path.{spool_path}
use vorsprung_logger.Spool.Frame.{frame, Wrote, write_record-frame}
use vorsprung_logger.Spool.Drain.{drain_one_record, read_record}
use vorsprung_logger.Spool.Replay.{
  IsRecord, frames, after_call, drain_times, drain_reader, AllSent, drain_times-frames,
}

-- The appends of an outage, and whether each of them answered true.
abbrev pub append_all : (c : Card) → List (List ℕ) → World c → Bool × World c
append_all c [] w = (true, w)
append_all c (bytes ∷ rs) w =
    let (kept, w') = append c bytes w in let (rest, w'') = append_all c rs w' in (kept && rest, w'')

module _ (c : Card) (content : c.Fs → List ℕ → Option (List ℕ)) (card : IsCard c content) where
  write_parts-drain :
      (p prefix packet : List ℕ) (w : World c)
      → (write_parts c p prefix packet w).1.spool.drain ≡ w.spool.drain
  unfolding write_parts count_record
  write_parts-drain p prefix packet w = ground arith

  write_open-drain :
      (o : Option (List ℕ)) (prefix packet : List ℕ) (w : World c)
      → (write_open c o prefix packet w).1.spool.drain ≡ w.spool.drain
  write_open-drain none prefix packet w = refl
  write_open-drain (some p) prefix packet w = write_parts-drain p prefix packet w

  open_outage_file-drain : (w : World c) → (open_outage_file c w).1.spool.drain ≡ w.spool.drain
  unfolding open_outage_file
  open_outage_file-drain w = ground arith

  append-drain : (bytes : List ℕ) (w : World c) → (append c bytes w).1.spool.drain ≡ w.spool.drain
  unfolding append write_record
  append-drain bytes w = elim (Bool-cases (length bytes == 0)) [
    | inl e ↦ rw e refl
    | inr e ↦ rw e (
        write_open-drain (open_outage_file c w).1.spool.outage [] bytes (open_outage_file c w).1
        ∙ open_outage_file-drain w)
  ]

  append_all-drain :
      (rs : List (List ℕ)) (w : World c) → (append_all c rs w).1.spool.drain ≡ w.spool.drain
  append_all-drain [] w = refl
  append_all-drain (bytes ∷ rs) w = append_all-drain rs (append c bytes w).1 ∙ append-drain bytes w

  -- With the file open, the appends add their frames to it.
  append_all-frames :
      (rs : List (List ℕ)) (p old : List ℕ) (w : World c)
      → w.spool.outage ≡ some p
      → content w.fs p ≡ some old
      → All IsRecord rs
      → (append_all c rs w).0 ≡ true
      → Wrote c content card p (old ++ frames rs) (append_all c rs w)
  unfolding append
  append_all-frames [] p old w isopen held ok done = record {
    stays_open = isopen;
    holds = held ∙ ap some (sym (append-nil old));
  }
  append_all-frames (bytes ∷ rs) p old w isopen held ok done =
      let (now, later) =
        and-eq-true (append c bytes w).0 (append_all c rs (append c bytes w).1).0 done in
      let one =
        write_record-frame c content card [] bytes p old w (inl (isopen, held))
          (omega (arith, ok.0.some_bytes)) now in
      let rest =
        append_all-frames rs p (old ++ frame bytes) (append c bytes w).1 one.stays_open one.holds
          ok.1 later in
      record {
        stays_open = rest.stays_open;
        holds = rest.holds ∙ ap some (append_assoc old (frame bytes) (frames rs));
      }

  -- The first append opens the file.
  outage-frames :
      (bytes : List ℕ) (rs : List (List ℕ)) (w : World c)
      → w.spool.outage ≡ none
      → content w.fs (spool_path w.spool.next_seq) ≡ none
      → All IsRecord (bytes ∷ rs)
      → (append_all c (bytes ∷ rs) w).0 ≡ true
      → Wrote c content card
          (spool_path w.spool.next_seq)
          (frames (bytes ∷ rs))
          (append_all c (bytes ∷ rs) w)
  unfolding append
  outage-frames bytes rs w isclosed absent ok done =
      let p = spool_path w.spool.next_seq in
      let (now, later) =
        and-eq-true (append c bytes w).0 (append_all c rs (append c bytes w).1).0 done in
      let one =
        write_record-frame c content card [] bytes p [] w (inr (isclosed, refl, absent, refl))
          (omega (arith, ok.0.some_bytes)) now in
      let rest =
        append_all-frames rs p (frame bytes) (append c bytes w).1 one.stays_open one.holds ok.1
          later in
      record { stays_open = rest.stays_open; holds = rest.holds }

  -- The end of the outage closes the file, and leaves what it holds and the reader alone.
  end_outage-content :
      (p q : List ℕ) (w : World c)
      → w.spool.outage ≡ some p
      → (content (end_outage c w).fs q ≡ content w.fs q)
        × ((end_outage c w).spool.drain ≡ w.spool.drain)
        × ((end_outage c w).spool.outage_seq ≡ 0)
  unfolding end_outage
  end_outage-content p q w h =
      rw h (card.closed (c.flush w.fs p) p q ∙ card.flushed w.fs p q, refl, refl)

  module _ (a : Anchor) (boot : ℕ) (send : List ℕ → Bool) where
    -- The world behind the opening of the reader.
    abbrev reading : ℕ → World c → World c
    reading seq w = record w {
      spool = record (w.spool) {
        drain = some (record { path = spool_path seq; position = 0 });
        drain_seq = seq;
      };
    }

    file_opens :
        (seq : ℕ) (w : World c)
        → w.spool.drain ≡ none
        → find_oldest_seq c w.spool.outage_seq w.fs ≡ some seq
        → c.open_read w.fs (spool_path seq) ≡ true
        → open_next_drain_file c w ≡ reading seq w
    unfolding open_next_drain_file
    file_opens seq w h oldest opens = ground arith

    read_opened :
        (seq : ℕ) (w w' : World c) (store : Store)
        → open_next_drain_file c w ≡ w'
        → anchor_is_set a ≡ true
        → w'.spool.drain ≡ some (record { path = spool_path seq; position = 0 })
        → drain_one_record c a boot send w store
          ≡ read_record c a boot send (record { path = spool_path seq; position = 0 }) w' store
    unfolding drain_one_record
    read_opened seq w w' store e s h = ground arith

    -- The call that opens the file goes on as one that finds it open.
    drain_opens :
        (seq : ℕ) (w : World c) (store : Store)
        → anchor_is_set a ≡ true
        → w.spool.drain ≡ none
        → find_oldest_seq c w.spool.outage_seq w.fs ≡ some seq
        → c.open_read w.fs (spool_path seq) ≡ true
        → drain_one_record c a boot send w store
          ≡ drain_one_record c a boot send (reading seq w) store
    drain_opens seq w store s h oldest opens =
        read_opened seq w (reading seq w) store (file_opens seq w h oldest opens) s refl
        ∙ sym (
            drain_reader c content card a boot send (record { path = spool_path seq; position = 0 })
              (reading seq w) store s refl)

    drain_times-opens :
        (n seq : ℕ) (w : World c) (store : Store)
        → anchor_is_set a ≡ true
        → w.spool.drain ≡ none
        → find_oldest_seq c w.spool.outage_seq w.fs ≡ some seq
        → c.open_read w.fs (spool_path seq) ≡ true
        → drain_times c content card a boot send (suc n) w store
          ≡ drain_times c content card a boot send (suc n) (reading seq w) store
    drain_times-opens n seq w store s h oldest opens =
        ap
          (λ d.
            after_call c content card a boot send d
              (drain_times c content card a boot send n d.world d.store))
          (drain_opens seq w store s h oldest opens)

    AllSent-IsRecord :
        (rs : List (List ℕ)) → AllSent c content card a boot send rs → All IsRecord rs
    AllSent-IsRecord [] h = tt
    AllSent-IsRecord (bytes ∷ rs) h = (h.0.0, AllSent-IsRecord rs h.1)

    -- The spool is a queue: the records that are appended to a new outage file, and that the card
    -- takes, are the records that the drain sends when the outage has ended, in the same order and
    -- each as it was appended. The new file was not there, it is the oldest file of the card when
    -- the drain begins, and it can be opened; the server takes each record, and none of them waits
    -- for a stamp.
    pub outage-replay :
        (bytes : List ℕ) (rs : List (List ℕ)) (w : World c) (store : Store)
        → anchor_is_set a ≡ true
        → w.spool.outage ≡ none
        → w.spool.drain ≡ none
        → content w.fs (spool_path w.spool.next_seq) ≡ none
        → AllSent c content card a boot send (bytes ∷ rs)
        → (append_all c (bytes ∷ rs) w).0 ≡ true
        → find_oldest_seq c 0 (end_outage c (append_all c (bytes ∷ rs) w).1).fs
          ≡ some w.spool.next_seq
        → c.open_read
            (end_outage c (append_all c (bytes ∷ rs) w).1).fs
            (spool_path w.spool.next_seq)
          ≡ true
        → (drain_times c content card a boot send
            (suc (length rs))
            (end_outage c (append_all c (bytes ∷ rs) w).1)
            store).0
          ≡ map some (bytes ∷ rs)
    outage-replay bytes rs w store s isclosed unread absent ok done oldest opens =
        let seq = w.spool.next_seq in
        let all = append_all c (bytes ∷ rs) w in
        let w' = end_outage c all.1 in
        let wrote =
          outage-frames bytes rs w isclosed absent (AllSent-IsRecord (bytes ∷ rs) ok) done in
        let (kept, reader, number) =
          end_outage-content (spool_path seq) (spool_path seq) all.1 wrote.stays_open in
        let nothing = reader ∙ append_all-drain (bytes ∷ rs) w ∙ unread in
        let replays =
          drain_times-frames c content card a boot send (bytes ∷ rs) []
            (record { path = spool_path seq; position = 0 }) (reading seq w') store s refl
            (kept ∙ wrote.holds) refl ok in
        ap (λ o. o.0)
          (drain_times-opens (length rs) seq w' store s nothing
            (ap (λ n. find_oldest_seq c n w'.fs) number ∙ oldest) opens)
        ∙ replays.in_order
