-- ===== src/Spool/Frame.antt =====
-- What an append leaves in the outage file (src/telestore.cpp): one frame more, if it answers true.
use vorsprung_logger.Base.{
  ℕ, ◌+◌, ◌%◌, ◌≡◌, sym, ap, ◌∙◌, ◌≢◌, ◌⊎◌, inl, inr, Bool, true, false, ◌==◌, List, [], ◌∷◌, ◌++◌,
  append-nil, append_assoc, length, length-append, Option, none, some, arith, ==_iff, Bool-cases,
  u32_mod, Option-cases,
}
use vorsprung_logger.Spool.{
  World, length_bytes, open_outage_file, write_all, prefix_written, count_record, write_parts,
  write_open, write_record,
}
use vorsprung_logger.Spool.Media.{Card, IsCard}
use vorsprung_logger.Spool.Path.{spool_path}

-- A record in the file: its length, then its bytes.
abbrev pub frame : List ℕ → List ℕ
frame bytes = length_bytes (length bytes) ++ bytes

module _ (c : Card) (content : c.Fs → List ℕ → Option (List ℕ)) (card : IsCard c content) where
  write_all-content :
      (p bs old : List ℕ) (fs : c.Fs)
      → content fs p ≡ some old
      → (write_all c p bs fs).0 ≡ true
      → content (write_all c p bs fs).1 p ≡ some (old ++ bs)
  unfolding write_all
  write_all-content p bs old fs h k = card.written fs p bs old h ((==_iff _ _).0 k)

  prefix_written-content :
      (p bs old : List ℕ) (fs : c.Fs)
      → content fs p ≡ some old
      → (prefix_written c p bs fs).0 ≡ true
      → content (prefix_written c p bs fs).1 p ≡ some (old ++ bs)
  prefix_written-content p [] old fs h k = h ∙ ap some (sym (append-nil old))
  prefix_written-content p (b ∷ bs) old fs h k = write_all-content p (b ∷ bs) old fs h k

  count_record-content :
      (p q : List ℕ) (w : World c) → content (count_record c p w).fs q ≡ content w.fs q
  unfolding count_record
  count_record-content p q w = elim (Bool-cases ((w.spool.append_count + 1) % u32_mod % 30 == 0)) [
    | inl e ↦ rw e (card.flushed w.fs p q)
    | inr e ↦ rw e
  ]

  write_parts-content :
      (p prefix packet old : List ℕ) (w : World c)
      → content w.fs p ≡ some old
      → (write_parts c p prefix packet w).0 ≡ true
      → content (write_parts c p prefix packet w).1.fs p ≡ some (old ++ frame (prefix ++ packet))
  unfolding write_parts
  write_parts-content p prefix packet old w h k = elim (Bool-cases head.0) [
    | inr x ↦ cc (rw x at k)
    | inl x ↦ elim (Bool-cases front.0) [
      | inr y ↦ cc (rw (x, y) at k)
      | inl y ↦ elim (Bool-cases body.0) [
        | inr z ↦ cc (rw (x, y, z) at k)
        | inl z ↦ rw (x, y, z) (kept x y z)
      ]
    ]
  ]
    where
      size : List ℕ
      size = length_bytes (length prefix + length packet)

      head : Bool × c.Fs
      head = write_all c p size w.fs

      front : Bool × c.Fs
      front = prefix_written c p prefix head.1

      body : Bool × c.Fs
      body = write_all c p packet front.1

      size_is : size ≡ length_bytes (length (prefix ++ packet))
      size_is = ap length_bytes (sym (length-append prefix packet))

      kept :
          head.0 ≡ true
          → front.0 ≡ true
          → body.0 ≡ true
          → content (count_record c p (record w { fs = body.1 })).fs p
            ≡ some (old ++ frame (prefix ++ packet))
      kept x y z =
          count_record-content p p (record w { fs = body.1 })
          ∙ write_all-content p packet (old ++ size ++ prefix) front.1
              (prefix_written-content p prefix (old ++ size) head.1
                (write_all-content p size old w.fs h x) y)
              z
          ∙ ap some (rw size_is (simp append_assoc))

  write_parts-outage :
      (p prefix packet : List ℕ) (w : World c)
      → (write_parts c p prefix packet w).1.spool.outage ≡ w.spool.outage
  unfolding write_parts count_record
  write_parts-outage p prefix packet w = ground arith

  write_record_step :
      (prefix packet : List ℕ) (w : World c)
      → length packet ≢ 0
      → write_record c prefix packet w
        ≡ write_open c (open_outage_file c w).1.spool.outage prefix packet (open_outage_file c w).1
  unfolding write_record
  write_record_step prefix packet w n = let e : (length packet == 0) ≡ false = ground arith in rw e

  already_open :
      (p : List ℕ) (w : World c) → w.spool.outage ≡ some p → open_outage_file c w ≡ (true, w)
  unfolding open_outage_file
  already_open p w h = ground arith

  -- The world behind an open that succeeded.
  abbrev pub opened_world : c.Fs → World c → World c
  opened_world fs' w = record {
    spool = record (w.spool) {
      outage = some (spool_path w.spool.next_seq);
      outage_seq = w.spool.next_seq;
      next_seq = (w.spool.next_seq + 1) % u32_mod;
      append_count = 0;
    };
    fs = fs';
  }

  newly_open :
      (w : World c)
      → w.spool.outage ≡ none
      → ((c.open_write w.fs (spool_path w.spool.next_seq) ≡ none)
          × (open_outage_file c w ≡ (false, w)))
        ⊎ ((fs' : c.Fs) × (c.open_write w.fs (spool_path w.spool.next_seq) ≡ some fs')
            × (open_outage_file c w ≡ (true, opened_world fs' w)))
  unfolding open_outage_file
  newly_open w h = elim (Option-cases (c.open_write w.fs (spool_path w.spool.next_seq))) [
    | inl e ↦ inl (e, ground arith)
    | inr (fs', e) ↦ inr (fs', e, ground arith)
  ]

  -- The outage file: the one that is open, with what it holds, or the one that the next record
  -- opens, which is not there yet.
  abbrev pub Target : World c → List ℕ → List ℕ → Type 0
  Target w p old =
      ((w.spool.outage ≡ some p) × (content w.fs p ≡ some old))
      ⊎ ((w.spool.outage ≡ none)
          × (p ≡ spool_path w.spool.next_seq)
          × (content w.fs p ≡ none)
          × (old ≡ []))

  -- What a successful write leaves in the file `p`.
  pub record Wrote (p cells : List ℕ) (o : Bool × World c) : Type 0 where
    pub stays_open : o.1.spool.outage ≡ some p
    pub holds : content o.1.fs p ≡ some cells

  -- A record that is written is one more frame at the end of the outage file, which stays open.
  pub write_record-frame :
      (prefix packet p old : List ℕ) (w : World c)
      → Target w p old
      → length packet ≢ 0
      → (write_record c prefix packet w).0 ≡ true
      → Wrote p (old ++ frame (prefix ++ packet)) (write_record c prefix packet w)
  write_record-frame prefix packet p old w (inl (isopen, held)) n k =
      let step : write_record c prefix packet w ≡ write_parts c p prefix packet w =
        write_record_step prefix packet w n
        ∙ ap (λ (o : Bool × World c). write_open c o.1.spool.outage prefix packet o.1)
            (already_open p w isopen)
        ∙ ap (λ o. write_open c o prefix packet w) isopen in
      rw step record {
        stays_open = write_parts-outage p prefix packet w ∙ isopen;
        holds = write_parts-content p prefix packet old w held (rw step at k);
      }
  write_record-frame prefix packet p old w (inr (isclosed, named, absent, blank)) n k =
      elim (newly_open w isclosed) [
        | inl (e, o) ↦
            let step : write_record c prefix packet w ≡ (false, w) =
              write_record_step prefix packet w n
              ∙ ap (λ (o : Bool × World c). write_open c o.1.spool.outage prefix packet o.1) o
              ∙ ap (λ q. write_open c q prefix packet w) isclosed in
            cc (rw step at k)
        | inr (fs', e, o) ↦
            let w' = opened_world fs' w in
            let step : write_record c prefix packet w ≡ write_parts c p prefix packet w' =
              write_record_step prefix packet w n
              ∙ ap (λ (o : Bool × World c). write_open c o.1.spool.outage prefix packet o.1) o
              ∙ ap (λ (q : List ℕ). write_parts c q prefix packet w') (sym named) in
            rw step record {
              stays_open = write_parts-outage p prefix packet w' ∙ ap some (sym named);
              holds =
                  write_parts-content p prefix packet old w'
                    (card.opened w.fs p fs' absent
                        (ap (λ (q : List ℕ). c.open_write w.fs q) named ∙ e)
                      ∙ ap some (sym blank))
                    (rw step at k);
            }
      ]
