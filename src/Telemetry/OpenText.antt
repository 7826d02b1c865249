-- ===== src/Telemetry/OpenText.antt =====
-- Whatever is logged, the text of a packet ends in a comma and holds no NUL, so that its tail can be
-- put and taken off again (src/telestore.cpp).
use vorsprung_logger.Base.{
  ℕ, zero, suc, ◌+◌, ◌-◌, ◌*◌, ◌/◌, ◌%◌, ◌≤◌, ◌<◌, ◌^◌, ◌≡◌, refl, ap, ◌≢◌, Bool, true, false, ltb,
  leb, ◌==◌, if◌then◌else◌, Bool-cases, Option-cases, inl, inr, List, [], ◌∷◌, ◌++◌, append_assoc,
  length, length-append, length-take, length-drop, take, drop, All-append, arith, u8_mod,
}
use vorsprung_logger.Text.Cstring.{first_index, Lacks}
use vorsprung_logger.Text.Number.{digit, digits_text, decimal, hexadecimal, signed_decimal, atoi}
use vorsprung_logger.Store.{Store, remain, dispatch}
use vorsprung_logger.Store.Log.{buf_size, Line, print, empty_line, print_rest, item_line, log}
use vorsprung_logger.Store.Floats.{
  Format, is_minus_nought, whole_part, short_float, print_floats, log_floats,
}
use vorsprung_logger.Buffer.{
  element_int32, element_float, element_float_d1, element_float_d2, log_element, serialize_from,
}

-- The text has its last comma, and no NUL in front of it; the cache has `n` bytes.
pub record IsOpen (n : ℕ) (s : Store) : Type 0 where
  pub size_is : s.size ≡ n
  pub body : List ℕ
  pub text_is : s.text ≡ body ++ b',' ∷ []
  pub no_nul : Lacks 0 body

pub dispatch-IsOpen :
    (buf : List ℕ) {n : ℕ} (s : Store) → Lacks 0 buf → IsOpen n s → IsOpen n (dispatch buf s)
unfolding dispatch
dispatch-IsOpen buf s h v = elim (Bool-cases (leb (2 ^ 31) (remain s (length buf)))) [
  | inl full ↦ rw full v
  | inr fits ↦ rw fits (record {
    size_is = v.size_is;
    body = v.body ++ b',' ∷ buf;
    text_is = rw v.text_is (simp append_assoc);
    no_nul = All-append (λ x. x ≢ 0) v.body (b',' ∷ buf) v.no_nul (omega arith, h);
  })
]

Lacks-take : (c n : ℕ) (xs : List ℕ) → Lacks c xs → Lacks c (take n xs)
Lacks-take c zero xs h = tt
Lacks-take c (suc n) [] h = tt
Lacks-take c (suc n) (x ∷ xs) h = (h.0, Lacks-take c n xs h.1)

if-Lacks : (b : Bool) (xs : List ℕ) → Lacks 0 xs → Lacks 0 (if b then [] else xs)
if-Lacks true xs h = tt
if-Lacks false xs h = h

digits_text-Lacks : (base fuel n : ℕ) → Lacks 0 (digits_text base fuel n)
unfolding digits_text digit
digits_text-Lacks base zero n = tt
digits_text-Lacks base (suc fuel) n =
    All-append (λ x. x ≢ 0) _ _ (if-Lacks (ltb n base) _ (digits_text-Lacks base fuel (n / base)))
      (ground arith, tt)

pub decimal-Lacks : (n : ℕ) → Lacks 0 (decimal n)
unfolding decimal
decimal-Lacks n = digits_text-Lacks 10 10 n

pub hex-Lacks : (n : ℕ) → Lacks 0 (hexadecimal n)
unfolding hexadecimal
hex-Lacks n = digits_text-Lacks 16 8 n

signed_decimal-Lacks : (n : ℕ) → Lacks 0 (signed_decimal n)
unfolding signed_decimal
signed_decimal-Lacks n = elim (Bool-cases (ltb n (2 ^ 31))) [
  | inl e ↦ rw e (decimal-Lacks n)
  | inr e ↦ rw e (omega arith, decimal-Lacks (2 ^ 32 - n))
]

take-append_le : (xs ys : List ℕ) (n : ℕ) → n ≤ length xs → take n (xs ++ ys) ≡ take n xs
take-append_le xs ys zero h = refl
take-append_le [] ys (suc n) h = absurd (omega arith)
take-append_le (x ∷ xs) ys (suc n) h = ap (λ l. x ∷ l) (take-append_le xs ys n (omega arith))

-- The bytes in front of `n` are text.
record IsLine (l : Line) : Type 0 where
  long : length l.buf ≡ buf_size
  in_byte : l.n < u8_mod
  text_in : Lacks 0 (take l.n l.buf)

print-IsLine : (t : List ℕ) (l : Line) → Lacks 0 t → IsLine l → IsLine (print t l)
print-IsLine t l h v = record {
  long = omega (
    arith,
    length-append (take l.n l.buf ++ (t' ++ 0 ∷ [])) (drop (l.n + length (t' ++ 0 ∷ [])) l.buf),
    length-append (take l.n l.buf) (t' ++ 0 ∷ []),
    length-append t' (0 ∷ []),
    length-take l.n l.buf,
    length-take (buf_size - l.n - 1) t,
    length-drop (l.n + length (t' ++ 0 ∷ [])) l.buf,
    v.long,
    v.in_byte,
  );
  in_byte = omega arith;
  text_in =
      rw (seam, take-append_le (take l.n l.buf ++ t') _ ((l.n + length t) % u8_mod) inside)
        (Lacks-take 0 _ _
          (All-append (λ x. x ≢ 0) (take l.n l.buf) t' v.text_in (Lacks-take 0 _ t h)));
}
  where
    t' : List ℕ
    t' = take (buf_size - l.n - 1) t

    behind : List ℕ
    behind = drop (l.n + length (t' ++ 0 ∷ [])) l.buf

    seam : (take l.n l.buf ++ (t' ++ 0 ∷ [])) ++ behind ≡ (take l.n l.buf ++ t') ++ 0 ∷ behind
    seam = simp append_assoc

    inside : (l.n + length t) % u8_mod ≤ length (take l.n l.buf ++ t')
    inside = omega (
      arith,
      length-append (take l.n l.buf) t',
      length-take l.n l.buf,
      length-take (buf_size - l.n - 1) t,
      v.long,
      v.in_byte,
    )

print_rest-IsLine :
    (show : ℕ → List ℕ) (vs : List ℕ) (l : Line)
    → ((v : ℕ) → Lacks 0 (show v))
    → IsLine l
    → IsLine (print_rest show vs l)
unfolding print_rest
print_rest-IsLine show [] l h v = v
print_rest-IsLine show (w ∷ vs) l h v =
    print_rest-IsLine show vs _ h (print-IsLine (b';' ∷ show w) l (omega arith, h w) v)

log-IsOpen :
    (show : ℕ → List ℕ) (pid v : ℕ) (vs : List ℕ) {n : ℕ} (s : Store)
    → ((v : ℕ) → Lacks 0 (show v))
    → IsOpen n s
    → IsOpen n (log show pid v vs s)
unfolding log item_line
log-IsOpen show pid v vs s h o =
    dispatch-IsOpen _ s
      (print_rest-IsLine show vs _ h (
        print-IsLine (hexadecimal pid ++ b':' ∷ show v) empty_line
          (All-append (λ x. x ≢ 0) (hexadecimal pid) (b':' ∷ show v) (hex-Lacks pid)
            (omega arith, h v))
          (record { long = refl; in_byte = omega arith; text_in = tt }))).text_in
      o

whole_part-Lacks : (t : List ℕ) (i : ℕ) → Lacks 0 t → Lacks 0 (whole_part t i)
whole_part-Lacks t i h = elim (Bool-cases (is_minus_nought (take i t))) [
  | inl e ↦ rw e (omega arith, tt)
  | inr e ↦ rw e (Lacks-take 0 i t h)
]

short_float-Lacks : (room : ℕ) (t : List ℕ) → Lacks 0 t → Lacks 0 (short_float room t)
unfolding short_float
short_float-Lacks room t h = elim (Option-cases (first_index b'.' (take room t))) [
  | inl e ↦ rw (e, short_float) h
  | inr (i, e) ↦ elim (Bool-cases (atoi (drop (i + 1) (take room t)) == 0)) [
    | inl z ↦ rw (e, z, short_float) (whole_part-Lacks (take room t) i (Lacks-take 0 room t h))
    | inr z ↦ rw (e, z, short_float) h
  ]
]

module _ (show : Format → ℕ → List ℕ)
    (plain_text : (fmt : Format) (v : ℕ) → Lacks 0 (show fmt v)) where
  print_floats-Lacks :
      (fmt : Format) (first : Bool) (text vs : List ℕ)
      → Lacks 0 text
      → Lacks 0 (print_floats show fmt first text vs)
  unfolding print_floats
  print_floats-Lacks fmt first text [] h = h
  print_floats-Lacks fmt first text (v ∷ vs) h =
      elim (Bool-cases (ltb (length text) (buf_size - 3))) [
        | inl e ↦ rw e (
            print_floats-Lacks fmt false _ vs (
              All-append (λ x. x ≢ 0) _ _ (separated first)
                (short_float-Lacks _ (show fmt v) (plain_text fmt v))))
        | inr e ↦ rw e h
      ]
    where
      separated : (b : Bool) → Lacks 0 (if b then text else text ++ b';' ∷ [])
      separated true = h
      separated false = All-append (λ x. x ≢ 0) text (b';' ∷ []) h (omega arith, tt)

  log_floats-IsOpen :
      (fmt : Format) (pid : ℕ) (vs : List ℕ) {n : ℕ} (s : Store)
      → IsOpen n s
      → IsOpen n (log_floats show fmt pid vs s)
  unfolding log_floats
  log_floats-IsOpen fmt pid vs s o =
      dispatch-IsOpen _ s
        (Lacks-take 0 _ _ (
          print_floats-Lacks fmt true (hexadecimal pid ++ b':' ∷ []) vs (
            All-append (λ x. x ≢ 0) (hexadecimal pid) (b':' ∷ []) (hex-Lacks pid)
              (omega arith, tt))))
        o

  log_element-IsOpen :
      (type pid count : ℕ) (cells : List ℕ) {n : ℕ} (s : Store)
      → IsOpen n s
      → IsOpen n (log_element show type pid count cells s)
  unfolding log_element
  log_element-IsOpen type pid count cells s o = elim (Bool-cases (ltb type element_int32)) [
    | inl a ↦ rw a (log-IsOpen decimal pid _ _ s decimal-Lacks o)
    | inr a ↦ elim (Bool-cases (type == element_int32)) [
      | inl b ↦ rw (a, b) (log-IsOpen signed_decimal pid _ _ s signed_decimal-Lacks o)
      | inr b ↦ elim (Bool-cases (type == element_float)) [
        | inl c ↦ rw (a, b, c) (log_floats-IsOpen _ pid _ s o)
        | inr c ↦ elim (Bool-cases (type == element_float_d1)) [
          | inl d ↦ rw (a, b, c, d) (log_floats-IsOpen _ pid _ s o)
          | inr d ↦ rw (a, b, c, d) (log_floats-IsOpen _ pid _ s o)
        ]
      ]
    ]
  ]

  -- The loop of `serialize` keeps it, whatever the slot holds.
  pub serialize_from-IsOpen :
      (left offset of : ℕ) (cells : List ℕ) {n : ℕ} (s : Store)
      → IsOpen n s
      → IsOpen n (serialize_from show left offset of cells s)
  unfolding serialize_from
  serialize_from-IsOpen zero offset of cells s o = o
  serialize_from-IsOpen (suc left) offset of [] s o = o
  serialize_from-IsOpen (suc left) offset of (lo ∷ []) s o = o
  serialize_from-IsOpen (suc left) offset of (lo ∷ hi ∷ []) s o = o
  serialize_from-IsOpen (suc left) offset of (lo ∷ hi ∷ type ∷ []) s o = o
  serialize_from-IsOpen (suc left) offset of (lo ∷ hi ∷ type ∷ count ∷ cells) s o =
      elim (Bool-cases (ltb of offset)) [
        | inr a ↦ rw a o
        | inl a ↦ elim (Bool-cases (leb type element_float_d2)) [
          | inr b ↦ rw (a, b) o
          | inl b ↦
              rw (a, b)
                (serialize_from-IsOpen left offset _ _ _
                  (log_element-IsOpen type (lo + u8_mod * hi) count cells s o))
        ]
      ]
