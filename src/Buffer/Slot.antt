-- ===== src/Buffer/Slot.antt =====
-- A slot of `CBuffer` as the list of its elements: adding and serializing (src/teleclient.cpp).
use vorsprung_logger.Base.{
  ℕ, suc, ◌+◌, ◌-◌, ◌*◌, ◌≤◌, ◌<◌, ◌≡◌, refl, sym, ap, ◌∙◌, ◌⊎◌, inl, inr, Bool-cases, ltb, List,
  [], ◌∷◌, ◌++◌, append_assoc, length, length-append, length-drop, All, All-append, arith, sub32,
  append-nil, true, false, lt→ltb,
}
use mathlib.Core.Path.{ap₂}
use vorsprung_logger.Store.{Store}
use vorsprung_logger.Store.Floats.{Format}
use vorsprung_logger.Buffer.{
  buffer_length, head_size, Buffer, offset, add, purge, type_width, serialize,
}
use vorsprung_logger.Buffer.Elements.{
  Element, value_bytes, IsElement, element_bytes, all_bytes, add_element, log_all,
  length-value_bytes, serialize_from_lem,
}

-- The slot has its 256 bytes, and holds these elements, in order. Each takes five bytes or more.
pub record HasElements (b : Buffer) (es : List Element) : Type 0 where
  pub used_is : b.used ≡ all_bytes es
  pub total_is : b.total ≡ length es
  pub elements_in : All IsElement es
  pub whole : length b.used + length b.rest ≡ buffer_length
  pub few : length es * 5 ≤ offset b

-- What has been added to a slot is serialized: each element as one item, in the order of the
-- calls.
pub serialize_lem :
    (show : Format → ℕ → List ℕ) (b : Buffer) (es : List Element) (s : Store)
    → HasElements b es
    → serialize show b s ≡ log_all show es s
unfolding serialize
serialize_lem show b es s h =
    rw (h.used_is, h.total_is)
      (serialize_from_lem show es 0 (length (all_bytes es)) b.rest s h.elements_in (omega arith))

pub purge-HasElements :
    (b : Buffer) (es : List Element) → HasElements b es → HasElements (purge b) []
unfolding purge
purge-HasElements b es h = record {
  used_is = refl;
  total_is = refl;
  elements_in = tt;
  whole = omega (arith, length-append b.used b.rest, h.whole);
  few = omega arith;
}

all_bytes-append : (es fs : List Element) → all_bytes (es ++ fs) ≡ all_bytes es ++ all_bytes fs
all_bytes-append [] fs = refl
all_bytes-append (e ∷ es) fs =
    ap (λ l. element_bytes e ++ l) (all_bytes-append es fs)
    ∙ sym (append_assoc (element_bytes e) (all_bytes es) (all_bytes fs))

-- The test of `add`: head and values stay below the last byte of the slot.
add_test :
    (o n : ℕ)
    → o ≤ 256
    → n ≤ 252
    → ltb o (sub32 (buffer_length - head_size) n) ≡ ltb (o + head_size + n) buffer_length
add_test o n h k = ground arith

width_pos : (type : ℕ) → 1 ≤ type_width type
width_pos type = ground arith

length-value_bytes_pos : (e : Element) → 1 ≤ length (value_bytes e)
length-value_bytes_pos e =
    rw (length-value_bytes e) (suc_mul_pos (length e.more) (type_width e.type) (width_pos e.type))
  where
    suc_mul_pos : (a w : ℕ) → 1 ≤ w → 1 ≤ suc a * w
    suc_mul_pos a w h = grind arith

-- An element of at most 252 bytes is added at the end if it fits in front of the slot's last byte;
-- otherwise the slot stays as it was.
add_element-HasElements :
    (e : Element) (b : Buffer) (es : List Element)
    → HasElements b es
    → IsElement e
    → length (value_bytes e) ≤ 252
    → ((offset b + head_size + length (value_bytes e) < buffer_length)
        × HasElements (add_element e b) (es ++ e ∷ []))
      ⊎ ((buffer_length ≤ offset b + head_size + length (value_bytes e)) × (add_element e b ≡ b))
unfolding add
add_element-HasElements e b es h k small =
    elim (Bool-cases (ltb (offset b + head_size + n) buffer_length)) [
      | inl yes_test ↦ inl (ground arith, added (ground arith))
      | inr no_test ↦ inr (ground arith, refused (ground arith))
    ]
  where
    n : ℕ
    n = length (value_bytes e)

    test :
        ltb (offset b) (sub32 (buffer_length - head_size) n)
        ≡ ltb (offset b + head_size + n) buffer_length
    test = add_test (offset b) n (omega (arith, h.whole)) small

    more : length (es ++ e ∷ []) ≡ length es + 1
    more = length-append es (e ∷ [])

    added : offset b + head_size + n < buffer_length → HasElements (add_element e b) (es ++ e ∷ [])
    added fits =
        let yes_test : ltb (offset b + head_size + n) buffer_length ≡ true = lt→ltb _ _ fits in
        rw (test, yes_test)
          record {
            used_is =
                ap₂ ◌++◌ h.used_is (sym (append-nil (element_bytes e)))
                ∙ sym (all_bytes-append es (e ∷ []));
            total_is = omega (arith, more, h.total_is, h.few, h.whole);
            elements_in = All-append IsElement es (e ∷ []) h.elements_in (k, tt);
            whole = omega (
              arith,
              length-append b.used (element_bytes e),
              length-drop (head_size + n) b.rest,
              h.whole,
            );
            few = omega (
              arith,
              more,
              length-append b.used (element_bytes e),
              length-value_bytes_pos e,
              h.few,
            );
          }

    refused : buffer_length ≤ offset b + head_size + n → add_element e b ≡ b
    refused full =
        let no_test : ltb (offset b + head_size + n) buffer_length ≡ false = ground arith in
        rw (test, no_test)
