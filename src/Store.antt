-- ===== src/Store.antt =====
-- `CStorage` and `CStorageRAM` of src/telestore.cpp and include/telestore.h: the text of a packet,
-- built in a cache of fixed size. The cache `m_cache` is `text ++ after`, split at `m_cacheBytes`,
-- so that `m_cacheBytes` is the length of `text`. A write past the end makes the two longer than
-- `size`; `Store.Bounds` says when that cannot be.
pub mod Bounds
pub mod Log
pub mod LogText
pub mod Floats
pub mod Restamp
use vorsprung_logger.Base.{
  ℕ, ◌+◌, ◌-◌, ◌%◌, ◌≤◌, ◌^◌, Bool, true, false, ltb, leb, ◌==◌, if◌then◌else◌, List, [], ◌∷◌, ◌++◌,
  Option, none, some, length, take, drop, set, u8_mod, u32_mod, sub32,
}
use vorsprung_logger.Text.Cstring.{upto_nul, last_index}
use vorsprung_logger.Text.Number.{decimal, hexadecimal}

pub record Store : Type 0 where
  pub size : ℕ
  pub text : List ℕ
  pub after : List ℕ
  pub samples : ℕ

abbrev pub cache_bytes : Store → ℕ
cache_bytes s = length s.text

-- `CStorageRAM::init`, of a new object: the memory given has `length memory` bytes.
abbrev pub init : List ℕ → Store
init memory = record { size = length memory; text = []; after = memory; samples = 0 }

unfoldable pub purge : Store → Store
purge s = record s { text = []; after = s.text ++ s.after; samples = 0 }

-- Bytes written at `m_cacheBytes`, which moves behind them.
abbrev pub put : List ℕ → Store → Store
put bs s = record s { text = s.text ++ bs; after = drop (length bs) s.after }

-- The NUL that `sprintf` writes behind its text.
abbrev pub terminate : Store → Store
terminate s = record s { after = 0 ∷ drop 1 s.after }

-- The `int remain` of `dispatch` as a 32-bit word; negative from 2 ^ 31 on.
abbrev pub remain : Store → ℕ → ℕ
remain s len = sub32 (sub32 (sub32 s.size (cache_bytes s)) len) 3

-- `CStorageRAM::dispatch` of `buf`, with its length.
unfoldable pub dispatch : List ℕ → Store → Store
dispatch buf s =
    if leb (2 ^ 31) (remain s (length buf))
    then s
    else record (put (buf ++ b',' ∷ []) s) { samples = s.samples + 1 }

unfoldable pub header : List ℕ → Store → Store
header devid s =
    terminate (put (devid ++ b'#' ∷ []) (record s { text = []; after = s.text ++ s.after }))

unfoldable pub checksum : List ℕ → ℕ
checksum [] = 0
checksum (c ∷ cs) = (c + checksum cs) % u8_mod

-- The text without a comma at its end.
unfoldable pub drop_comma : List ℕ → List ℕ
drop_comma [] = []
drop_comma (c ∷ []) = if c == b',' then [] else c ∷ []
drop_comma (c ∷ d ∷ cs) = c ∷ drop_comma (d ∷ cs)

-- `if (m_cache[m_cacheBytes - 1] == ',') m_cacheBytes--`: the comma stays in the cache, behind.
unfoldable pub trim : Store → Store
trim s =
    let kept = drop_comma s.text in
    record s { text = kept; after = drop (length kept) s.text ++ s.after }

unfoldable pub tailer : Store → Store
tailer s = let t = trim s in terminate (put (b'*' ∷ hexadecimal (checksum t.text)) t)

-- `untailer`: the cache is read as a string, and cut behind its last '*', which becomes a comma.
abbrev pub cut_at : Option ℕ → Store → Store
cut_at none s = s
cut_at (some i) s =
    let memory = set (s.text ++ s.after) i b',' in
    record s { text = take (i + 1) memory; after = drop (i + 1) memory }

unfoldable pub untailer : Store → Store
untailer s = cut_at (last_index b'*' (upto_nul (s.text ++ s.after))) s

-- `load` of the first `len` bytes of `source`.
unfoldable pub load : List ℕ → ℕ → Store → Store
load source len s =
    let kept : ℕ = if leb s.size len then s.size - 1 else len in
    record s {
      text = take kept source;
      after = 0 ∷ drop (kept + 1) (s.text ++ s.after);
      samples = 0;
    }
