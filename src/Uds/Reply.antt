-- ===== src/Uds/Reply.antt =====
-- What `readDID` makes of the text of an answer (libraries/FreematicsPlus/FreematicsUDS.cpp).
use vorsprung_logger.Base.{
  ℕ, zero, suc, ◌-◌, ◌^◌, ◌/◌, ◌%◌, ◌≤◌, ◌<◌, ◌≡◌, refl, sym, ap, ◌∙◌, ◌≢◌, true, false, ◌==◌, ◌&&◌,
  and-eq-true, List, [], ◌∷◌, ◌++◌, map, some, length, take, All, All-append, arith, length-append,
  take-all, ==_iff,
}
use vorsprung_logger.Base.Check.{checks, checks_lem}
use vorsprung_logger.Text.Number.{digit}
use vorsprung_logger.Uds.Did.{judge, Link, Cuds, address, read_did}
use vorsprung_logger.Uds.Hex.{
  is_xdigit, hex_value, skip_other, digit_run, behind_run, run_byte, collect, uds_parse_ascii_hex,
}

abbrev pub AreDigits : List ℕ → Type 0
AreDigits = All (λ c. is_xdigit c ≡ true)

-- A word of digits, not empty.
pub record IsWord (w : List ℕ) : Type 0 where
  pub digits : AreDigits w
  pub nonempty : 1 ≤ length w

-- Words with a space behind each.
abbrev pub words_text : List (List ℕ) → List ℕ → List ℕ
words_text [] tail = tail
words_text (w ∷ ws) tail = w ++ 32 ∷ words_text ws tail

abbrev pub word_bytes : List (List ℕ) → List ℕ
word_bytes [] = []
word_bytes (w ∷ ws) = run_byte w ++ word_bytes ws

digit_run-append : (w cells : List ℕ) → AreDigits w → digit_run (w ++ 32 ∷ cells) ≡ w
unfolding digit_run
digit_run-append [] cells h = refl
digit_run-append (c ∷ w) cells h = rw (h.0, digit_run-append w cells h.1) refl

behind_run-append : (w cells : List ℕ) → AreDigits w → behind_run (w ++ 32 ∷ cells) ≡ 32 ∷ cells
unfolding behind_run
behind_run-append [] cells h = refl
behind_run-append (c ∷ w) cells h = rw (h.0, behind_run-append w cells h.1) refl

skip_other-append : (w cells : List ℕ) → IsWord w → skip_other (w ++ 32 ∷ cells) ≡ w ++ 32 ∷ cells
unfolding skip_other
skip_other-append [] cells h = absurd (omega (arith, h.nonempty))
skip_other-append (c ∷ w) cells h = rw (h.digits.0) refl

skip_other-none : (cells : List ℕ) → All (λ c. is_xdigit c ≡ false) cells → skip_other cells ≡ []
unfolding skip_other
skip_other-none [] h = refl
skip_other-none (c ∷ cs) h = rw (h.0) (skip_other-none cs h.1)

collect-none :
    (fuel room : ℕ) (cells : List ℕ)
    → All (λ c. is_xdigit c ≡ false) cells
    → collect fuel room cells ≡ []
unfolding collect digit_run behind_run
collect-none zero room cells h = refl
collect-none (suc fuel) zero cells h = refl
collect-none (suc fuel) (suc room) cells h =
    rw (skip_other-none cells h, collect-none fuel (suc room - 0) [] tt) refl

collect-space :
    (fuel room : ℕ) (cells : List ℕ) → collect fuel room (32 ∷ cells) ≡ collect fuel room cells
unfolding collect skip_other
collect-space zero room cells = refl
collect-space (suc fuel) zero cells = refl
collect-space (suc fuel) (suc room) cells = refl

monus_zero : (n : ℕ) → n - 0 ≡ n
monus_zero n = omega arith

monus_one : (n : ℕ) → suc n - 1 ≡ n
monus_one n = omega arith

take-run_byte :
    (room : ℕ) (w rest : List ℕ)
    → 1 ≤ room
    → run_byte w ++ take (room - length (run_byte w)) rest ≡ take room (run_byte w ++ rest)
take-run_byte zero w rest h = absurd (omega arith)
take-run_byte (suc room) [] rest h = rw (monus_zero (suc room)) refl
take-run_byte (suc room) (a ∷ []) rest h = rw (monus_zero (suc room)) refl
take-run_byte (suc room) (a ∷ b ∷ []) rest h = rw (monus_one room) refl
take-run_byte (suc room) (a ∷ b ∷ c ∷ w) rest h = rw (monus_zero (suc room)) refl

collect-words :
    (fuel room : ℕ) (ws : List (List ℕ)) (tail : List ℕ)
    → length ws ≤ fuel
    → All IsWord ws
    → All (λ c. is_xdigit c ≡ false) tail
    → collect fuel room (words_text ws tail) ≡ take room (word_bytes ws)
unfolding collect
collect-words fuel room [] tail h k l =
    collect-none fuel room tail l ∙ sym (take-all [] room (omega arith))
collect-words zero room (w ∷ ws) tail h k l = absurd (omega arith)
collect-words (suc fuel) zero (w ∷ ws) tail h k l = refl
collect-words (suc fuel) (suc room) (w ∷ ws) tail h k l =
    let more = words_text ws tail in
    rw
      (
        skip_other-append w more k.0,
        digit_run-append w more k.0.digits,
        behind_run-append w more k.0.digits,
        collect-space fuel (suc room - length (run_byte w)) more,
        collect-words fuel (suc room - length (run_byte w)) ws tail (omega arith) k.1 l,
      )
      (take-run_byte (suc room) w (word_bytes ws) (omega arith))

-- A byte as the co-processor writes it.
abbrev pub hex_word : ℕ → List ℕ
hex_word b = digit (b / 16) ∷ digit (b % 16) ∷ []

digit_values : checks (λ k. is_xdigit (digit k) && (hex_value (digit k) == k)) 16 ≡ true
unfolding checks digit
digit_values = refl

digit_lem : (k : ℕ) → k < 16 → (is_xdigit (digit k) ≡ true) × (hex_value (digit k) ≡ k)
digit_lem k below =
    let both = and-eq-true (is_xdigit (digit k)) (hex_value (digit k) == k) (
      checks_lem (λ n. is_xdigit (digit n) && (hex_value (digit n) == n)) 16 k below
        digit_values) in
    (both.0, (==_iff (hex_value (digit k)) k).0 both.1)

hex_word-IsWord : (b : ℕ) → b < 256 → IsWord (hex_word b)
hex_word-IsWord b below = record {
  digits = ((digit_lem (b / 16) (omega arith)).0, ((digit_lem (b % 16) (omega arith)).0, tt));
  nonempty = omega arith;
}

run_byte-hex_word : (b : ℕ) → b < 256 → run_byte (hex_word b) ≡ b ∷ []
run_byte-hex_word b below =
    rw ((digit_lem (b / 16) (omega arith)).1, (digit_lem (b % 16) (omega arith)).1)
      (ap (λ n. n ∷ []) (omega arith))

abbrev pub AreBytes : List ℕ → Type 0
AreBytes = All (λ b. b < 256)

hex_words-IsWord : (bs : List ℕ) → AreBytes bs → All IsWord (map hex_word bs)
hex_words-IsWord [] h = tt
hex_words-IsWord (b ∷ bs) h = (hex_word-IsWord b h.0, hex_words-IsWord bs h.1)

word_bytes-hex_words : (bs : List ℕ) → AreBytes bs → word_bytes (map hex_word bs) ≡ bs
word_bytes-hex_words [] h = refl
word_bytes-hex_words (b ∷ bs) h =
    ap (λ l. l ++ word_bytes (map hex_word bs)) (run_byte-hex_word b h.0)
    ∙ ap (λ l. b ∷ l) (word_bytes-hex_words bs h.1)

-- A word in front of the bytes, such as the identifier of the sender.
pub record IsHead (w : List ℕ) : Type 0 where
  pub word : IsWord w
  pub not_byte : length w ≢ 2

run_byte-IsHead : (w : List ℕ) → length w ≢ 2 → run_byte w ≡ []
run_byte-IsHead [] h = refl
run_byte-IsHead (a ∷ []) h = refl
run_byte-IsHead (a ∷ b ∷ []) h = absurd (h refl)
run_byte-IsHead (a ∷ b ∷ c ∷ w) h = refl

word_bytes-IsHead :
    (heads ws : List (List ℕ)) → All IsHead heads → word_bytes (heads ++ ws) ≡ word_bytes ws
word_bytes-IsHead [] ws h = refl
word_bytes-IsHead (w ∷ heads) ws h =
    rw (run_byte-IsHead w h.0.not_byte) (word_bytes-IsHead heads ws h.1)

heads-IsWord : (heads : List (List ℕ)) → All IsHead heads → All IsWord heads
heads-IsWord [] h = tt
heads-IsWord (w ∷ heads) h = (h.0.word, heads-IsWord heads h.1)

length-words_text : (ws : List (List ℕ)) (tail : List ℕ) → length ws ≤ length (words_text ws tail)
length-words_text [] tail = omega arith
length-words_text (w ∷ ws) tail =
    omega (arith, length-words_text ws tail, length-append w (32 ∷ words_text ws tail))

-- The text of an answer: its head words, its bytes, and an end without digits.
abbrev pub reply_text : List (List ℕ) → List ℕ → List ℕ → List ℕ
reply_text heads bytes tail = words_text (heads ++ map hex_word bytes) tail

pub collect-reply_text :
    (heads : List (List ℕ)) (bytes tail : List ℕ)
    → All IsHead heads
    → AreBytes bytes
    → All (λ c. is_xdigit c ≡ false) tail
    → collect (length (reply_text heads bytes tail)) 32 (reply_text heads bytes tail)
      ≡ take 32 bytes
collect-reply_text heads bytes tail h k l =
    let ws = heads ++ map hex_word bytes in
    collect-words (length (words_text ws tail)) 32 ws tail (length-words_text ws tail)
      (All-append IsWord heads (map hex_word bytes) (heads-IsWord heads h)
        (hex_words-IsWord bytes k))
      l
    ∙ ap (λ bs. take 32 bs)
        (word_bytes-IsHead heads (map hex_word bytes) h ∙ word_bytes-hex_words bytes k)

-- The answer to a request is read back: the values that a control unit sends behind the service
-- byte 0x62 and the requested identifier are what `readDID` returns, up to its sixteen bytes,
-- whatever words that are not two digits long (the identifier of the sender) stand in front, and
-- whatever without digits stands behind.
pub read_did-reply_text :
    (link : Link) (did req_id : ℕ) (u : Cuds link) (heads : List (List ℕ)) (values tail : List ℕ)
    → did < 2 ^ 16
    → All IsHead heads
    → AreBytes values
    → 1 ≤ length values
    → length values ≤ 29
    → All (λ c. is_xdigit c ≡ false) tail
    → u.attached ≡ true
    → (link.send_can_message
        (0x22 ∷ (did / 256 % 256) ∷ (did % 256) ∷ [])
        (address link req_id u.bus)).0
      ≡ some (reply_text heads (0x62 ∷ did / 256 ∷ (did % 256) ∷ values) tail)
    → (read_did link did req_id u).0 ≡ some (take 16 values)
unfolding read_did judge uds_parse_ascii_hex
read_did-reply_text link did req_id u heads values tail small h k some_value few l on answered =
    let bytes : List ℕ = 0x62 ∷ did / 256 ∷ (did % 256) ∷ values in
    rw
      (
        on,
        answered,
        collect-reply_text heads bytes tail h (omega arith, (omega arith, (omega arith, k))) l,
        take-all values 29 few,
        take-all values 29 few,
      )
      (ground arith)
