-- ===== src/Store/LogText.antt =====
-- What an item of `CStorage::log` says, where it fits its buffer (src/telestore.cpp).
use vorsprung_logger.Base.{
  ℕ, zero, suc, ◌+◌, ◌-◌, ◌<◌, ◌≡◌, refl, ap, ◌∙◌, List, [], ◌∷◌, ◌++◌, append-nil, append_assoc,
  length, length-append, length-drop, take, drop, take-append, take-all, replicate, arith,
}
use vorsprung_logger.Text.Number.{hexadecimal}
use vorsprung_logger.Store.{Store, dispatch}
use vorsprung_logger.Store.Log.{
  buf_size, Line, write_at, print, empty_line, print_rest, item_line, log,
}

-- The values after the first, each behind a semicolon.
abbrev pub rest_text : (ℕ → List ℕ) → List ℕ → List ℕ
rest_text show [] = []
rest_text show (v ∷ vs) = (b';' ∷ show v) ++ rest_text show vs

abbrev pub item_text : (ℕ → List ℕ) → ℕ → ℕ → List ℕ → List ℕ
item_text show pid v vs = (hexadecimal pid ++ b':' ∷ show v) ++ rest_text show vs

-- The line holds a text, and has the bytes `junk` behind it.
record HasText (l : Line) (t junk : List ℕ) : Type 0 where
  buf_is : l.buf ≡ t ++ junk
  n_is : l.n ≡ length t
  fits : length t + length junk ≡ buf_size

drop-add-append : (xs ys : List ℕ) (n k : ℕ) → n ≡ length xs + k → drop n (xs ++ ys) ≡ drop k ys
drop-add-append [] ys n k h = ap (λ i. drop i ys) (omega arith)
drop-add-append (x ∷ xs) ys zero k h = absurd (omega arith)
drop-add-append (x ∷ xs) ys (suc n) k h = drop-add-append xs ys n k (omega arith)

write_at_end :
    (t junk w : List ℕ) (i : ℕ)
    → i ≡ length t
    → write_at i w (t ++ junk) ≡ t ++ w ++ drop (length w) junk
write_at_end t junk w i h =
    rw (take-append t junk i h, drop-add-append t junk (i + length w) (length w) (omega arith))

print-HasText :
    (l : Line) (t junk u : List ℕ)
    → HasText l t junk
    → length t + length u < buf_size
    → HasText (print u l) (t ++ u) (0 ∷ drop (length u + 1) junk)
print-HasText l t junk u h room = record {
  buf_is =
      rw
        (
          h.buf_is,
          take-all u (buf_size - l.n - 1) (omega (arith, h.n_is)),
          write_at_end t junk (u ++ 0 ∷ []) l.n h.n_is,
          length-append u (0 ∷ []),
        )
        (simp append_assoc);
  n_is = rw (length-append t u) (omega (arith, h.n_is));
  fits = omega (arith, length-append t u, length-drop (length u + 1) junk, h.fits);
}

-- Where the whole item fits, the loop prints the values one behind the other.
print_rest-HasText :
    (show : ℕ → List ℕ) (vs : List ℕ) (l : Line) (t junk : List ℕ)
    → HasText l t junk
    → length t + length (rest_text show vs) < buf_size
    → take (print_rest show vs l).n (print_rest show vs l).buf ≡ t ++ rest_text show vs
unfolding print_rest
print_rest-HasText show [] l t junk h room =
    rw (h.buf_is, h.n_is, take-append t junk (length t) refl, append-nil)
print_rest-HasText show (v ∷ vs) l t junk h room =
    let u = b';' ∷ show v in
    let both = length-append u (rest_text show vs) in
    print_rest-HasText show vs (print u l) (t ++ u) (0 ∷ drop (length u + 1) junk)
      (print-HasText l t junk u h (omega (arith, both))) (omega (arith, both, length-append t u))
    ∙ append_assoc t u (rest_text show vs)

-- An item of at most 255 bytes reaches `dispatch` whole: the identifier in hexadecimal, a colon,
-- and the values, with semicolons between.
pub log_lem :
    (show : ℕ → List ℕ) (pid v : ℕ) (vs : List ℕ) (s : Store)
    → length (item_text show pid v vs) < buf_size
    → log show pid v vs s ≡ dispatch (item_text show pid v vs) s
unfolding log item_line
log_lem show pid v vs s room =
    let head = hexadecimal pid ++ b':' ∷ show v in
    let both = length-append head (rest_text show vs) in
    ap (λ buf. dispatch buf s)
      (print_rest-HasText show vs (print head empty_line) head
        (0 ∷ drop (length head + 1) (replicate buf_size 0))
        (print-HasText empty_line [] (replicate buf_size 0) head
          (record { buf_is = refl; n_is = refl; fits = refl }) (omega (arith, both)))
        (omega (arith, both)))
