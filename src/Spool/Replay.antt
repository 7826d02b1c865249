-- ===== src/Spool/Replay.antt =====
-- The drain reads back what the appends wrote (src/telestore.cpp).
use vorsprung_logger.Base.{
  ℕ, zero, suc, ◌+◌, ◌*◌, ◌%◌, ◌≤◌, ◌<◌, ◌^◌, ◌≡◌, refl, sym, ap, ◌∙◌, Bool, true, false, ltb, leb,
  ◌==◌, ◌||◌, List, [], ◌∷◌, ◌++◌, append_assoc, length, length-append, take, drop, map,
  take-append, drop-append, All, Option, some, arith, u8_mod, u16_mod, byte_at,
}
use mathlib.Core.Path.{subst}
use vorsprung_logger.Time.Anchor.{Anchor, anchor_is_set}
use vorsprung_logger.Store as St
use vorsprung_logger.Store.{Store}
use vorsprung_logger.Spool.{Reader, World, length_bytes, open_next_drain_file}
use vorsprung_logger.Spool.Media.{Card, IsCard}
use vorsprung_logger.Spool.Frame.{frame}
use vorsprung_logger.Spool.Drain.{
  max_record, is_unstamped, Drained, at_position, dropped, transmit_record, take_record,
  read_record, drain_one_record,
}

record_length_lem :
    (n : ℕ) → n < 2 ^ 16 → byte_at (n % u16_mod) 8 * u8_mod + byte_at (n % u16_mod) 0 ≡ n
record_length_lem n h = omega arith

-- A record that the drain accepts: not empty, and no longer than its buffer.
pub record IsRecord (bytes : List ℕ) : Type 0 where
  pub some_bytes : 0 < length bytes
  pub fits : length bytes ≤ max_record

-- The frames of the records, one behind the other.
abbrev pub frames : List (List ℕ) → List ℕ
frames [] = []
frames (bytes ∷ rs) = frame bytes ++ frames rs

module _ (c : Card) (content : c.Fs → List ℕ → Option (List ℕ)) (card : IsCard c content)
    (a : Anchor) (boot : ℕ) (send : List ℕ → Bool) where
  -- A frame in the middle of a file is read whole, and handed on with the position behind it.
  pub read_record-frame :
      (r : Reader) (before bytes behind : List ℕ) (w : World c) (store : Store)
      → content w.fs r.path ≡ some (before ++ (frame bytes ++ behind))
      → r.position ≡ length before
      → IsRecord bytes
      → read_record c a boot send r w store
        ≡ take_record c a boot send bytes r (r.position + 2 + length bytes) w store
  unfolding read_record
  read_record-frame r before bytes behind w store held at ok =
      rw (not_at_end, head_is, len_is, body_is, good_len, good_body)
    where
      n : ℕ
      n = length bytes

      cells : List ℕ
      cells = before ++ (frame bytes ++ behind)

      head_is : c.read w.fs r.path r.position 2 ≡ length_bytes n
      head_is =
          card.read_is w.fs r.path cells r.position 2 held
          ∙ ap (λ (l : List ℕ). take 2 l) (drop-append before (frame bytes ++ behind) r.position at)

      len_is : byte_at (n % u16_mod) 8 * u8_mod + byte_at (n % u16_mod) 0 ≡ n
      len_is = record_length_lem n (omega arith)

      body_is : c.read w.fs r.path (r.position + 2) n ≡ bytes
      body_is =
          card.read_is w.fs r.path cells (r.position + 2) n held
          ∙ ap (λ (l : List ℕ). take n (drop (r.position + 2) l))
              (sym (append_assoc before (length_bytes n) (bytes ++ behind)))
          ∙ ap (λ (l : List ℕ). take n l)
              (drop-append (before ++ length_bytes n) (bytes ++ behind) (r.position + 2)
                (omega (arith, length-append before (length_bytes n))))
          ∙ take-append bytes behind n refl

      size_is : c.size w.fs r.path ≡ length before + (2 + (n + length behind))
      size_is =
          card.size_is w.fs r.path cells held
          ∙ length-append before (frame bytes ++ behind)
          ∙ ap (λ k. length before + k) (omega (arith, length-append bytes behind))

      not_at_end : leb (c.size w.fs r.path) r.position ≡ false
      not_at_end = ground (arith, size_is)

      good_len : (n == 0 || ltb max_record n) ≡ false
      good_len = ground arith

      good_body : (n == n) ≡ true
      good_body = ground arith

  -- At the end of its file the reader is closed and the file removed.
  pub read_record-end :
      (r : Reader) (cells : List ℕ) (w : World c) (store : Store)
      → content w.fs r.path ≡ some cells
      → r.position ≡ length cells
      → read_record c a boot send r w store ≡ dropped c w store
  unfolding read_record
  read_record-end r cells w store held at =
      let done : leb (c.size w.fs r.path) r.position ≡ true =
        ground (arith, card.size_is w.fs r.path cells held) in
      rw done

  abbrev pub after_call :
      Drained c
      → List (Option (List ℕ)) × World c × Store
      → List (Option (List ℕ)) × World c × Store
  after_call d (tried, w, store) = (d.tried ∷ tried, w, store)

  -- The calls of a drain: what each tried to send, and what the last one left.
  abbrev pub drain_times : ℕ → World c → Store → List (Option (List ℕ)) × World c × Store
  drain_times zero w store = ([], w, store)
  drain_times (suc n) w store =
      let d = drain_one_record c a boot send w store in after_call d (drain_times n d.world d.store)

  pub drain_reader :
      (r : Reader) (w : World c) (store : Store)
      → anchor_is_set a ≡ true
      → w.spool.drain ≡ some r
      → drain_one_record c a boot send w store ≡ read_record c a boot send r w store
  unfolding drain_one_record open_next_drain_file
  drain_reader r w store s h = ground arith

  sent_record :
      (bytes : List ℕ) (r : Reader) (next : ℕ) (w : World c) (store : Store)
      → is_unstamped bytes ≡ false
      → send bytes ≡ true
      → take_record c a boot send bytes r next w store ≡ record {
        result = true;
        tried = some bytes;
        world = at_position c r next w;
        store = St.purge store;
      }
  unfolding take_record transmit_record
  sent_record bytes r next w store u s = rw (u, s)

  -- What the calls of a drain have done: they tried these records, the reader stands at `n`, and the
  -- card is `fs`.
  pub record Replays (rs : List (List ℕ)) (r : Reader) (n : ℕ) (fs : c.Fs)
      (o : List (Option (List ℕ)) × World c × Store) : Type 0 where
    pub in_order : o.0 ≡ map some rs
    pub stands_at : o.1.spool.drain ≡ some (record r { position = n })
    pub same_card : o.1.fs ≡ fs

  -- The server takes every record of the list, none of which waits for a stamp.
  abbrev pub AllSent : List (List ℕ) → Type 0
  AllSent = All (λ bytes. IsRecord bytes × (is_unstamped bytes ≡ false) × (send bytes ≡ true))

  -- With the anchor set, a file of frames is sent record by record, in the order in which they were
  -- written, each as it was handed to the spool, if every record of it is stamped and the network takes
  -- every one. Then the reader stands at the end of the file, and the card is as it was.
  pub drain_times-frames :
      (rs : List (List ℕ)) (before : List ℕ) (r : Reader) (w : World c) (store : Store)
      → anchor_is_set a ≡ true
      → w.spool.drain ≡ some r
      → content w.fs r.path ≡ some (before ++ frames rs)
      → r.position ≡ length before
      → AllSent rs
      → Replays rs r (length before + length (frames rs)) w.fs (drain_times (length rs) w store)
  drain_times-frames [] before r w store s h held at ok = record {
    in_order = refl;
    stands_at = h ∙ ap (λ n. some (record r { position = n })) (omega arith);
    same_card = refl;
  }
  drain_times-frames (bytes ∷ rs) before r w store s h held at ok =
      let later =
        drain_times-frames rs (before ++ frame bytes) (record r { position = next }) w'
          (St.purge store) s refl
          (held ∙ ap some (sym (append_assoc before (frame bytes) (frames rs))))
          (omega (arith, long)) ok.1 in
      subst
        (λ (d : Drained c).
          Replays (bytes ∷ rs) r (length before + length (frames (bytes ∷ rs))) w.fs
            (after_call d (drain_times (length rs) d.world d.store)))
        (sym step)
        record {
          in_order = ap (λ tried. some bytes ∷ tried) later.in_order;
          stands_at =
              later.stands_at
              ∙ ap (λ n. some (record r { position = n })) (omega (arith, long, more));
          same_card = later.same_card;
        }
    where
      next : ℕ
      next = r.position + 2 + length bytes

      w' : World c
      w' = at_position c r next w

      step :
          drain_one_record c a boot send w store
          ≡ record { result = true; tried = some bytes; world = w'; store = St.purge store }
      step =
          drain_reader r w store s h
          ∙ read_record-frame r before bytes (frames rs) w store held at ok.0.0
          ∙ sent_record bytes r next w store ok.0.1 ok.0.2

      long : length (before ++ frame bytes) ≡ length before + length (frame bytes)
      long = length-append before (frame bytes)

      more : length (bytes ++ frames rs) ≡ length bytes + length (frames rs)
      more = length-append bytes (frames rs)
