-- ===== src/Store/Restamp.antt =====
-- Back-stamping, as the spool does it: a finished packet is loaded, opened with `untailer`,
-- extended and closed again (src/telestore.cpp).
use vorsprung_logger.Base.{
  ℕ, ◌+◌, ◌<◌, ◌≡◌, refl, sym, ap, ◌∙◌, Bool, true, false, leb, List, [], ◌∷◌, ◌++◌, append_assoc,
  length, length-append, take, drop, set, take-append, take-all, drop-append, arith, ◌&&◌, ◌==◌,
  not, ◌≢◌, All-append,
}
use mathlib.Core.Path.{ap₂}
use mathlib.Core.Option.{some}
use vorsprung_logger.Base.Check.{checks, checks_lem}
use vorsprung_logger.Text.Cstring.{upto_nul, last_index, Lacks, upto_nul-append, last_index-append}
use vorsprung_logger.Text.Number.{digits_text, hexadecimal}
use vorsprung_logger.Store.{Store, purge, dispatch, checksum, trim, tailer, cut_at, untailer, load}
use vorsprung_logger.Store.Bounds.{checksum-lt, tailer_lem}
use vorsprung_logger.Store.Log.{log, write_stamp}

-- Digits of a checksum are neither '*' nor NUL.
plain : List ℕ → Bool
plain [] = true
plain (c ∷ cs) = (not (c == 0) && not (c == b'*')) && plain cs

plain_table : checks (λ n. plain (hexadecimal n)) 256 ≡ true
unfolding checks plain hexadecimal digits_text
plain_table = refl

plain-Lacks : (cs : List ℕ) → plain cs ≡ true → Lacks 0 cs × Lacks b'*' cs
unfolding plain
plain-Lacks [] h = (tt, tt)
plain-Lacks (c ∷ cs) h = ground (arith, plain-Lacks cs)

pub hexadecimal-Lacks : (n : ℕ) → n < 256 → Lacks 0 (hexadecimal n) × Lacks b'*' (hexadecimal n)
hexadecimal-Lacks n h =
    plain-Lacks (hexadecimal n) (checks_lem (λ n. plain (hexadecimal n)) 256 n h plain_table)

set-append : (xs ys : List ℕ) (c d : ℕ) → set (xs ++ c ∷ ys) (length xs) d ≡ xs ++ d ∷ ys
set-append [] ys c d = refl
set-append (x ∷ xs) ys c d = ap (λ l. x ∷ l) (set-append xs ys c d)

-- A cache that holds a closed packet, with a NUL behind it, is opened: the '*' of the tail is a
-- comma again, and the text ends there.
pub untailer_lem :
    (xs hs r : List ℕ) (s : Store)
    → Lacks 0 xs
    → Lacks 0 hs
    → Lacks b'*' hs
    → s.text ≡ xs ++ b'*' ∷ hs
    → s.after ≡ 0 ∷ r
    → untailer s ≡ record s { text = xs ++ b',' ∷ []; after = hs ++ 0 ∷ r }
unfolding untailer
untailer_lem xs hs r s hx hh star e f =
    ap (λ o. cut_at o s) found
    ∙ ap (λ m. record s { text = take (length xs + 1) m; after = drop (length xs + 1) m }) memory
    ∙ ground (
      arith,
      take-append (xs ++ b',' ∷ []) (hs ++ 0 ∷ r) (length xs + 1) at,
      drop-append (xs ++ b',' ∷ []) (hs ++ 0 ∷ r) (length xs + 1) at,
    )
  where
    at : length xs + 1 ≡ length (xs ++ b',' ∷ [])
    at = omega (arith, length-append xs (b',' ∷ []))

    found : last_index b'*' (upto_nul (s.text ++ s.after)) ≡ some (length xs)
    found =
        ap (λ m. last_index b'*' (upto_nul m)) (ap₂ ◌++◌ e f)
        ∙ ap (last_index b'*') (
            upto_nul-append (xs ++ b'*' ∷ hs) r
              (All-append (λ c. c ≢ 0) xs (b'*' ∷ hs) hx (omega arith, hh)))
        ∙ last_index-append b'*' xs hs star

    memory : set (s.text ++ s.after) (length xs) b',' ≡ (xs ++ b',' ∷ []) ++ (hs ++ 0 ∷ r)
    memory =
        ap (λ m. set m (length xs) b',') (ap₂ ◌++◌ e f ∙ append_assoc xs (b'*' ∷ hs) (0 ∷ r))
        ∙ set-append xs (hs ++ 0 ∷ r) b'*' b','
        ∙ sym (append_assoc xs (b',' ∷ []) (hs ++ 0 ∷ r))

-- Two caches of one size that hold the same text.
pub record Same (a b : Store) : Type 0 where
  pub text_is : a.text ≡ b.text
  pub size_is : a.size ≡ b.size

dispatch-Same : (buf : List ℕ) {a b : Store} → Same a b → Same (dispatch buf a) (dispatch buf b)
unfolding dispatch
dispatch-Same buf h = ground (arith, ap (λ t. length t) h.text_is)

log-Same :
    (show : ℕ → List ℕ) (pid v : ℕ) (vs : List ℕ) {a b : Store}
    → Same a b
    → Same (log show pid v vs a) (log show pid v vs b)
unfolding log
log-Same show pid v vs h = dispatch-Same _ h

write_stamp-Same : (utc : ℕ) {a b : Store} → Same a b → Same (write_stamp utc a) (write_stamp utc b)
unfolding write_stamp
write_stamp-Same utc h = log-Same _ _ _ _ (log-Same _ _ _ _ (log-Same _ _ _ _ h))

text-tailer : (a b : Store) → a.text ≡ b.text → (tailer a).text ≡ (tailer b).text
unfolding tailer trim
text-tailer a b e = rw e

-- What the drain of the spool makes of an unstamped packet, in the scratch cache `d`.
abbrev pub restamp : ℕ → List ℕ → Store → Store
restamp utc packet d = tailer (write_stamp utc (untailer (load packet (length packet) (purge d))))

-- Back-stamping makes of an unstamped packet what would have been built with the clock set: the
-- stamp goes behind the last item, and the checksum is that of the whole. The packet has at least
-- one item, holds no NUL, and fits the cache that it is loaded into, which is as large as the one
-- that it was built in.
pub restamp_lem :
    (utc : ℕ) (xs : List ℕ) (s d : Store)
    → s.text ≡ xs ++ b',' ∷ []
    → Lacks 0 xs
    → s.size ≡ d.size
    → length (tailer s).text < d.size
    → (restamp utc (tailer s).text d).text ≡ (tailer (write_stamp utc s)).text
unfolding load purge
restamp_lem utc xs s d e hx size room =
    text-tailer (write_stamp utc (untailer loaded)) (write_stamp utc s)
      (write_stamp-Same utc same).text_is
  where
    hs : List ℕ
    hs = hexadecimal (checksum xs)

    packet : List ℕ
    packet = (tailer s).text

    loaded : Store
    loaded = load packet (length packet) (purge d)

    packet_is : packet ≡ xs ++ b'*' ∷ hs
    packet_is = ap (λ (t : Store). t.text) (tailer_lem xs s e)

    short : leb d.size (length packet) ≡ false
    short = ground (arith, room)

    whole : loaded.text ≡ packet
    whole = rw short (take-all packet (length packet) (omega arith))

    behind : loaded.after ≡ 0 ∷ drop (length packet + 1) (d.text ++ d.after)
    behind = rw short

    opened : untailer loaded ≡ record loaded {
      text = xs ++ b',' ∷ [];
      after = hs ++ 0 ∷ drop (length packet + 1) (d.text ++ d.after);
    }
    opened =
        let (no_nul, no_star) = hexadecimal-Lacks (checksum xs) (checksum-lt xs) in
        untailer_lem xs hs (drop (length packet + 1) (d.text ++ d.after)) loaded hx no_nul no_star
          (whole ∙ packet_is) behind

    same : Same (untailer loaded) s
    same = record {
      text_is = ap (λ (t : Store). t.text) opened ∙ sym e;
      size_is = ap (λ (t : Store). t.size) opened ∙ sym size;
    }
