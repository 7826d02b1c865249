-- ===== src/Store/Bounds.antt =====
-- The packet cache of src/telestore.cpp stays inside its memory.
use vorsprung_logger.Base.{
  ℕ, ◌+◌, ◌≤◌, ◌<◌, ◌^◌, ◌≡◌, refl, sym, ap, ◌∙◌, Bool, true, ltb, leb, ◌==◌, if◌then◌else◌, List,
  [], ◌∷◌, ◌++◌, append_assoc, length, length-append, length-drop, drop, drop-append, arith,
}
use vorsprung_logger.Base.Check.{checks, checks_lem}
use vorsprung_logger.Text.Number.{digits_text, hexadecimal}
use vorsprung_logger.Store.{
  Store, cache_bytes, purge, put, terminate, remain, dispatch, header, checksum, drop_comma, trim,
  tailer,
}

-- The cache has `size` bytes, no write has left it, and an `int` holds its size.
pub record IsStore (s : Store) : Type 0 where
  pub whole : length s.text + length s.after ≡ s.size
  pub small : s.size < 2 ^ 30

pub put-IsStore :
    (bs : List ℕ) (s : Store) → IsStore s → cache_bytes s + length bs ≤ s.size → IsStore (put bs s)
put-IsStore bs s v h = ground (arith, length-append s.text bs, length-drop (length bs) s.after)

pub terminate-IsStore : (s : Store) → IsStore s → cache_bytes s + 1 ≤ s.size → IsStore (terminate s)
terminate-IsStore s v h = ground (arith, length-drop 1 s.after)

pub purge-IsStore : (s : Store) → IsStore s → IsStore (purge s)
unfolding purge
purge-IsStore s v = ground (arith, length-append s.text s.after)

-- The test of `dispatch` says whether the item and three bytes more fit.
pub remain_lem :
    (s : Store) (len : ℕ)
    → IsStore s
    → len < 256
    → leb (2 ^ 31) (remain s len) ≡ ltb s.size (cache_bytes s + len + 3)
remain_lem s len v h = ground (arith, v.whole)

-- An item that fits is added with a comma; one that does not is dropped, and nothing changes.
pub dispatch_lem :
    (buf : List ℕ) (s : Store)
    → IsStore s
    → length buf < 256
    → dispatch buf s ≡ (
        if leb (cache_bytes s + length buf + 3) s.size
        then record (put (buf ++ b',' ∷ []) s) { samples = s.samples + 1 }
        else s)
unfolding dispatch
dispatch_lem buf s v h = ground (arith, remain_lem s (length buf) v h)

pub size-dispatch : (buf : List ℕ) (s : Store) → (dispatch buf s).size ≡ s.size
unfolding dispatch
size-dispatch buf s = ground arith

-- An item of fewer than 256 bytes, taken or refused, leaves the text inside the cache: nothing is
-- written past its end.
pub dispatch-IsStore :
    (buf : List ℕ) (s : Store) → IsStore s → length buf < 256 → IsStore (dispatch buf s)
dispatch-IsStore buf s v h = rw (dispatch_lem buf s v h) (
    ground (
      arith,
      length-append buf (b',' ∷ []),
      length-append s.text (buf ++ b',' ∷ []),
      length-drop (length (buf ++ b',' ∷ [])) s.after,
    ))

-- The room that the test of `dispatch` keeps free behind the text.
pub dispatch_room :
    (buf : List ℕ) (s : Store)
    → IsStore s
    → length buf < 256
    → cache_bytes s + 2 ≤ s.size
    → cache_bytes (dispatch buf s) + 2 ≤ s.size
dispatch_room buf s v h r =
    rw (dispatch_lem buf s v h)
      (ground (arith, length-append buf (b',' ∷ []), length-append s.text (buf ++ b',' ∷ [])))

pub header-IsStore :
    (devid : List ℕ) (s : Store) → IsStore s → length devid + 2 ≤ s.size → IsStore (header devid s)
unfolding header
header-IsStore devid s v h = ground (
  arith,
  length-append devid (b'#' ∷ []),
  length-append s.text s.after,
  length-drop (length (devid ++ b'#' ∷ [])) (s.text ++ s.after),
  length-drop 1 (drop (length (devid ++ b'#' ∷ [])) (s.text ++ s.after)),
)

pub checksum-lt : (cs : List ℕ) → checksum cs < 256
unfolding checksum
checksum-lt [] = omega arith
checksum-lt (c ∷ cs) = omega arith

-- What a checksum prints as: one or two digits.
short_at : ℕ → Bool
short_at n = (if ltb n 16 then length (hexadecimal n) == 1 else length (hexadecimal n) == 2)

short_table : checks (λ n. short_at n) 256 ≡ true
unfolding checks short_at hexadecimal digits_text
short_table = refl

pub length-hexadecimal : (n : ℕ) → n < 256 → length (hexadecimal n) ≡ (if ltb n 16 then 1 else 2)
unfolding short_at
length-hexadecimal n h = let t = checks_lem (λ n. short_at n) 256 n h short_table in ground arith

pub drop_comma-comma : (xs : List ℕ) → drop_comma (xs ++ b',' ∷ []) ≡ xs
unfolding drop_comma
drop_comma-comma [] = refl
drop_comma-comma (x ∷ []) = refl
drop_comma-comma (x ∷ y ∷ xs) = ap (λ l. x ∷ l) (drop_comma-comma (y ∷ xs))

-- A text that ends in a comma loses it, and the comma stays in the cache behind the text.
pub trim_lem :
    (xs : List ℕ) (s : Store)
    → s.text ≡ xs ++ b',' ∷ []
    → trim s ≡ record s { text = xs; after = b',' ∷ s.after }
unfolding trim
trim_lem xs s e = rw (e, drop_comma-comma xs, drop-append xs (b',' ∷ []) (length xs) refl)

-- The tail of a packet: its checksum behind a '*', in place of the last comma, and a NUL.
pub tailer_lem :
    (xs : List ℕ) (s : Store)
    → s.text ≡ xs ++ b',' ∷ []
    → tailer s ≡ record s {
      text = xs ++ b'*' ∷ hexadecimal (checksum xs);
      after = 0 ∷ drop 1 (drop (length (hexadecimal (checksum xs))) s.after);
    }
unfolding tailer
tailer_lem xs s e = rw (trim_lem xs s e)

module _ (xs : List ℕ) (s : Store) (v : IsStore s) (e : s.text ≡ xs ++ b',' ∷ []) where
  bytes_of : cache_bytes s ≡ length xs + 1
  bytes_of = rw (e, length-append xs (b',' ∷ []))

  -- With three bytes free behind the text the tail fits, its NUL included.
  tailer-IsStore : cache_bytes s + 3 ≤ s.size → IsStore (tailer s)
  tailer-IsStore room =
      let hex = hexadecimal (checksum xs) in
      rw (tailer_lem xs s e) (
        ground (
          arith,
          bytes_of,
          length-hexadecimal (checksum xs) (checksum-lt xs),
          length-append xs (b'*' ∷ hex),
          length-drop (length hex) s.after,
          length-drop 1 (drop (length hex) s.after),
          v.whole,
        ))

  -- With two bytes free and a checksum of two digits, the NUL lands one past the end.
  tailer_past_end :
      cache_bytes s + 2 ≡ s.size
      → 16 ≤ checksum xs
      → length (tailer s).text + length (tailer s).after ≡ s.size + 1
  tailer_past_end full two =
      let hex = hexadecimal (checksum xs) in
      rw (tailer_lem xs s e) (
        ground (
          arith,
          bytes_of,
          length-hexadecimal (checksum xs) (checksum-lt xs),
          length-append xs (b'*' ∷ hex),
          length-drop (length hex) s.after,
          length-drop 1 (drop (length hex) s.after),
          v.whole,
        ))

-- The reserve of `dispatch` is one byte short: an item that fills the cache up to the reserve is
-- accepted, and then a two-digit checksum makes `tailer` write a NUL one past the cache.
pub dispatch-tailer_overrun :
    (buf : List ℕ) (s : Store)
    → IsStore s
    → length buf < 256
    → cache_bytes s + length buf + 3 ≡ s.size
    → 16 ≤ checksum (s.text ++ buf)
    → let t = tailer (dispatch buf s) in length t.text + length t.after ≡ s.size + 1
dispatch-tailer_overrun buf s v h full two =
    let fits : leb (cache_bytes s + length buf + 3) s.size ≡ true = ground arith in
    let added : dispatch buf s ≡ record (put (buf ++ b',' ∷ []) s) { samples = s.samples + 1 } =
      rw (dispatch_lem buf s v h, fits) in
    tailer_past_end (s.text ++ buf) (dispatch buf s) (dispatch-IsStore buf s v h)
      (rw added (sym (append_assoc s.text buf (b',' ∷ []))))
      (rw added
        (omega (arith, length-append s.text (buf ++ b',' ∷ []), length-append buf (b',' ∷ []))))
      two
    ∙ ap (λ n. n + 1) (size-dispatch buf s)
