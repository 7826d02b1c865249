-- ===== src/Buffer/Elements.antt =====
-- The elements of a slot: what `CBuffer::add` writes, `CBuffer::serialize` reads
-- (src/teleclient.cpp).
use vorsprung_logger.Base.{
  ℕ, zero, suc, ◌+◌, ◌-◌, ◌*◌, ◌/◌, ◌%◌, ◌^◌, ◌≤◌, ◌<◌, ◌≡◌, refl, sym, ap, ◌∙◌, ltb, ◌==◌,
  if◌then◌else◌, List, [], ◌∷◌, ◌++◌, append_assoc, length, length-append, drop, drop-append, All,
  arith, lt→ltb, le→leb, u8_mod,
}
use native.Mathlib.Nat.{pow-suc}
use vorsprung_logger.Text.Number.{decimal, signed_decimal}
use vorsprung_logger.Store.{Store}
use vorsprung_logger.Store.Log.{log}
use vorsprung_logger.Store.Floats.{Format, plain, one_place, two_places, log_floats}
use vorsprung_logger.Buffer.{
  head_size, Buffer, offset, element_int32, element_float, element_float_d1, element_float_d2,
  head_bytes, add, word_at, words_at, type_width, log_element, serialize_from,
}

-- An element as the caller means it: its type and at least one value.
pub record Element : Type 0 where
  pub pid : ℕ
  pub type : ℕ
  pub first : ℕ
  pub more : List ℕ

abbrev pub values : Element → List ℕ
values e = e.first ∷ e.more

abbrev pub count : Element → ℕ
count e = suc (length e.more)

-- A value in memory, lowest byte first.
abbrev pub word_bytes : ℕ → ℕ → List ℕ
word_bytes zero n = []
word_bytes (suc width) n = n % u8_mod ∷ word_bytes width (n / u8_mod)

abbrev pub words_bytes : ℕ → List ℕ → List ℕ
words_bytes width [] = []
words_bytes width (v ∷ vs) = word_bytes width v ++ words_bytes width vs

unfoldable pub value_bytes : Element → List ℕ
value_bytes e = words_bytes (type_width e.type) (values e)

-- The type is known, and identifier, count and values fit their fields.
pub record IsElement (e : Element) : Type 0 where
  pub pid_in : e.pid < 2 ^ 16
  pub type_in : e.type ≤ element_float_d2
  pub count_in : count e < 256
  pub values_in : All (λ v. v < u8_mod ^ type_width e.type) (values e)

abbrev pub element_bytes : Element → List ℕ
element_bytes e = head_bytes e.pid e.type (count e) ++ value_bytes e

abbrev pub all_bytes : List Element → List ℕ
all_bytes [] = []
all_bytes (e ∷ es) = element_bytes e ++ all_bytes es

abbrev pub add_element : Element → Buffer → Buffer
add_element e b = add e.pid e.type (value_bytes e) (count e) b

module _ (show : Format → ℕ → List ℕ) where
  -- The item that an element is to become.
  unfoldable pub log_of : Element → Store → Store
  log_of e s =
      if ltb e.type element_int32
      then log decimal e.pid e.first e.more s
      else if e.type == element_int32
      then log signed_decimal e.pid e.first e.more s
      else if e.type == element_float
      then log_floats show plain e.pid (values e) s
      else if e.type == element_float_d1
      then log_floats show one_place e.pid (values e) s
      else log_floats show two_places e.pid (values e) s

  abbrev pub log_all : List Element → Store → Store
  log_all [] s = s
  log_all (e ∷ es) s = log_all es (log_of e s)

length-word_bytes : (width n : ℕ) → length (word_bytes width n) ≡ width
length-word_bytes zero n = refl
length-word_bytes (suc width) n = ap suc (length-word_bytes width (n / u8_mod))

word_at-word_bytes :
    (width n : ℕ) (r : List ℕ) → n < u8_mod ^ width → word_at width (word_bytes width n ++ r) ≡ n
unfolding word_at
word_at-word_bytes zero n r h = omega arith
word_at-word_bytes (suc width) n r h =
    let p : u8_mod ^ suc width ≡ u8_mod ^ width * u8_mod = pow-suc u8_mod width in
    omega (arith, word_at-word_bytes width (n / u8_mod) r (omega (arith, p)))

words_at-words_bytes :
    (width : ℕ) (vs r : List ℕ)
    → All (λ v. v < u8_mod ^ width) vs
    → words_at width (length vs) (words_bytes width vs ++ r) ≡ vs
unfolding words_at
words_at-words_bytes width [] r h = refl
words_at-words_bytes width (v ∷ vs) r h = rw (
  append_assoc (word_bytes width v) (words_bytes width vs) r,
  word_at-word_bytes width v (words_bytes width vs ++ r) h.0,
  drop-append (word_bytes width v) (words_bytes width vs ++ r) width
      (sym (length-word_bytes width v)),
  words_at-words_bytes width vs r h.1,
)

length-words_bytes : (width : ℕ) (vs : List ℕ) → length (words_bytes width vs) ≡ length vs * width
length-words_bytes width [] = omega arith
length-words_bytes width (v ∷ vs) = omega (
  arith,
  length-append (word_bytes width v) (words_bytes width vs),
  length-word_bytes width v,
  length-words_bytes width vs,
)

pub length-value_bytes : (e : Element) → length (value_bytes e) ≡ count e * type_width e.type
unfolding value_bytes
length-value_bytes e = length-words_bytes (type_width e.type) (values e)

module _ (show : Format → ℕ → List ℕ) where
  log_element_lem :
      (e : Element) (r : List ℕ) (s : Store)
      → IsElement e
      → log_element show e.type e.pid (count e) (value_bytes e ++ r) s ≡ log_of show e s
  unfolding log_element log_of value_bytes
  log_element_lem e r s h =
      let width = type_width e.type in
      let whole = words_at-words_bytes width (values e) r h.values_in in
      let head =
        ap (λ (cells : List ℕ). word_at width cells)
          (append_assoc (word_bytes width e.first) (words_bytes width e.more) r)
        ∙ word_at-word_bytes width e.first (words_bytes width e.more ++ r) h.values_in.0 in
      let behind =
        ap (λ (cells : List ℕ). drop width cells)
          (append_assoc (word_bytes width e.first) (words_bytes width e.more) r)
        ∙ drop-append (word_bytes width e.first) (words_bytes width e.more ++ r) width
            (sym (length-word_bytes width e.first)) in
      let one : suc (length e.more) - 1 ≡ length e.more = omega arith in
      rw (whole, head, behind, one, words_at-words_bytes width e.more r h.values_in.1)

  serialize_from_step :
      (left offset of lo hi type n : ℕ) (cells : List ℕ) (s : Store)
      → of < offset
      → type ≤ element_float_d2
      → serialize_from show (suc left) offset of (lo ∷ hi ∷ type ∷ n ∷ cells) s
        ≡ serialize_from show left offset
            (of + head_size + n * type_width type)
            (drop (n * type_width type) cells)
            (log_element show type (lo + u8_mod * hi) n cells s)
  unfolding serialize_from
  serialize_from_step left offset of lo hi type n cells s h k =
      rw (lt→ltb of offset h, le→leb type element_float_d2 k)

  pub serialize_from_lem :
      (es : List Element) (of n : ℕ) (r : List ℕ) (s : Store)
      → All IsElement es
      → n ≡ of + length (all_bytes es)
      → serialize_from show (length es) n of (all_bytes es ++ r) s ≡ log_all show es s
  unfolding serialize_from
  serialize_from_lem [] of n r s h e = refl
  serialize_from_lem (e ∷ es) of n r s h at =
      let v = value_bytes e in
      let size = count e * type_width e.type in
      let long = length-append v (all_bytes es) in
      let pid : e.pid % u8_mod + u8_mod * (e.pid / u8_mod) ≡ e.pid = omega arith in
      ap
        (λ (cells : List ℕ).
          serialize_from show (suc (length es)) n of
            (e.pid % u8_mod ∷ e.pid / u8_mod ∷ e.type ∷ count e ∷ cells) s)
        (append_assoc v (all_bytes es) r)
      ∙ serialize_from_step (length es) n of (e.pid % u8_mod) (e.pid / u8_mod) e.type (count e)
          (v ++ (all_bytes es ++ r)) s (omega (arith, long)) h.0.type_in
      ∙ rw
          (
            pid,
            log_element_lem e (all_bytes es ++ r) s h.0,
            drop-append v (all_bytes es ++ r) size (sym (length-value_bytes e)),
          )
          (serialize_from_lem es (of + head_size + size) n r (log_of show e s) h.1
            (omega (arith, long, length-value_bytes e)))
