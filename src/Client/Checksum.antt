-- ===== src/Client/Checksum.antt =====
-- The client accepts what a packet cache closes (src/teleclient.cpp, src/telestore.cpp).
use vorsprung_logger.Base.{
  ℕ, ◌+◌, ◌<◌, ◌≡◌, refl, sym, ap, ◌∙◌, true, ◌==◌, List, [], ◌∷◌, ◌++◌, append_assoc, some, length,
  take, drop, length-append, take-append, drop-append, ==_iff, arith,
}
use vorsprung_logger.Text.Cstring.{last_index-append}
use vorsprung_logger.Text.Number.{hexadecimal}
use vorsprung_logger.Store.{Store, checksum, tailer}
use vorsprung_logger.Store.Bounds.{checksum-lt, tailer_lem}
use vorsprung_logger.Store.Restamp.{hexadecimal-Lacks}
use vorsprung_logger.Client.{Cell, verify_at, verify_checksum}

module _ (c : Cell) (reads : (n : ℕ) → n < 256 → c.hex2uint8 (hexadecimal n) ≡ n) where
  -- A text that `tailer` has closed passes `verifyChecksum`, which gives back what was in front of
  -- the tail. `hex2uint8` reads what `%X` prints of a byte.
  pub verify_checksum-tailer :
      (xs : List ℕ) (s : Store)
      → s.text ≡ xs ++ b',' ∷ []
      → verify_checksum c (tailer s).text ≡ some xs
  unfolding verify_checksum verify_at
  verify_checksum-tailer xs s e =
      ap (λ (t : Store). verify_checksum c t.text) (tailer_lem xs s e)
      ∙ ap (λ o. verify_at c o cells)
          (last_index-append b'*' xs hex (hexadecimal-Lacks sum (checksum-lt xs)).1)
      ∙ rw (front, back, reads sum (checksum-lt xs), same) refl
    where
      sum : ℕ
      sum = checksum xs

      hex : List ℕ
      hex = hexadecimal sum

      cells : List ℕ
      cells = xs ++ b'*' ∷ hex

      front : take (length xs) cells ≡ xs
      front = take-append xs (b'*' ∷ hex) (length xs) refl

      back : drop (length xs + 1) cells ≡ hex
      back =
          ap (λ l. drop (length xs + 1) l) (sym (append_assoc xs (b'*' ∷ []) hex))
          ∙ drop-append (xs ++ b'*' ∷ []) hex (length xs + 1)
              (omega (arith, length-append xs (b'*' ∷ [])))

      same : (sum == sum) ≡ true
      same = (==_iff sum sum).1 refl
