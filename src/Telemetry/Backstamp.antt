-- ===== src/Telemetry/Backstamp.antt =====
-- A record that is spooled without its time and stamped by the drain becomes the packet that
-- `buildPacket` would have made with the clock set (src/main.cpp, src/telestore.cpp).
use vorsprung_logger.Base.{
  ℕ, zero, suc, ◌+◌, ◌/◌, ◌≤◌, ◌≡◌, refl, ap, ◌∙◌, ◌≢◌, true, ltb, leb, Bool-cases, inl, inr, List,
  [], ◌∷◌, ◌++◌, append-nil, append_assoc, none, some, length, length-append, length-drop, drop,
  All-append, arith,
}
use vorsprung_logger.Text.Cstring.{Lacks}
use vorsprung_logger.Text.Number.{digits_text, decimal, hexadecimal}
use vorsprung_logger.Time.Anchor.{Anchor, anchor_resolve}
use vorsprung_logger.Store.{Store, cache_bytes, header, dispatch, checksum}
use vorsprung_logger.Store.Bounds.{
  IsStore, dispatch_lem, checksum-lt, tailer_lem, length-hexadecimal,
}
use vorsprung_logger.Store.Log.{pid_timestamp, log, timestamp}
use vorsprung_logger.Store.LogText.{item_text, log_lem}
use vorsprung_logger.Store.Floats.{Format}
use vorsprung_logger.Store.Restamp.{restamp, restamp_lem}
use vorsprung_logger.Buffer.{Buffer, serialize}
use vorsprung_logger.Telemetry.Packet.{packet_body, build_packet}
use vorsprung_logger.Telemetry.OpenText.{IsOpen, decimal-Lacks, hex-Lacks, serialize_from-IsOpen}

length-digits_text : (base fuel n : ℕ) → length (digits_text base fuel n) ≤ fuel
unfolding digits_text
length-digits_text base zero n = omega arith
length-digits_text base (suc fuel) n = elim (Bool-cases (ltb n base)) [
  | inl e ↦ rw e (omega arith)
  | inr e ↦ rw e (
      omega (
        arith,
        length-digits_text base fuel (n / base),
        length-append (digits_text base fuel (n / base)) (_ ∷ []),
      ))
]

length-decimal : (n : ℕ) → length (decimal n) ≤ 10
unfolding decimal
length-decimal n = length-digits_text 10 10 n

header-IsStore :
    (devid : List ℕ) (s : Store) → IsStore s → length devid + 2 ≤ s.size → IsStore (header devid s)
unfolding header
header-IsStore devid s v h =
    let cells = s.text ++ s.after in
    let text = devid ++ b'#' ∷ [] in
    ground (
      arith,
      v.whole,
      length-append s.text s.after,
      length-append devid (b'#' ∷ []),
      length-drop (length text) cells,
      length-drop 1 (drop (length text) cells),
    )

-- The header and the timestamp are an open text, in a cache with room for them.
begun-IsOpen :
    (devid : List ℕ) (ts : ℕ) (s : Store)
    → IsStore s
    → Lacks 0 devid
    → length devid + 16 ≤ s.size
    → IsOpen s.size (timestamp ts (header devid s))
unfolding timestamp header
begun-IsOpen devid ts s v h room =
    rw
      (
        item_is,
        dispatch_lem item (header devid s) (header-IsStore devid s v (omega arith))
            (omega (arith, short)),
        fits,
      )
      (record {
        size_is = refl;
        body = devid ++ b'#' ∷ item;
        text_is = simp append_assoc;
        no_nul =
            All-append (λ x. x ≢ 0) devid (b'#' ∷ item) h
              (
                omega arith,
                rw (append-nil (hexadecimal 0 ++ b':' ∷ decimal ts)) (
                    All-append (λ x. x ≢ 0) (hexadecimal 0) (b':' ∷ decimal ts) (hex-Lacks 0)
                      (omega arith, decimal-Lacks ts)),
              );
      })
  where
    item : List ℕ
    item = item_text decimal pid_timestamp ts []

    one_digit : length (hexadecimal 0) ≡ 1
    one_digit = length-hexadecimal 0 (omega arith)

    short : length item ≤ 12
    short = omega (
      arith,
      length-decimal ts,
      one_digit,
      length-append (hexadecimal 0) (b':' ∷ decimal ts),
      length-append (hexadecimal 0 ++ b':' ∷ decimal ts) [],
    )

    item_is : log decimal pid_timestamp ts [] (header devid s) ≡ dispatch item (header devid s)
    item_is = log_lem decimal pid_timestamp ts [] (header devid s) (omega (arith, short))

    fits : leb (cache_bytes (header devid s) + length item + 3) s.size ≡ true
    fits = ground (arith, short, length-append devid (b'#' ∷ []))

-- A slot whose time is not known yet is packed without a stamp; once the anchor is set, the drain
-- makes of that packet the one that would have been built with the anchor set in the first place.
-- Device identifier and printed floats hold no NUL, the caches are equally large, and three bytes
-- are left behind the logged text.
pub build_packet-restamp :
    (show : Format → ℕ → List ℕ) (devid : List ℕ) (early late : Anchor) (b : Buffer) (s d : Store)
    (utc : ℕ)
    → ((fmt : Format) (v : ℕ) → Lacks 0 (show fmt v))
    → Lacks 0 devid
    → IsStore s
    → s.size ≡ d.size
    → length devid + 16 ≤ s.size
    → cache_bytes (packet_body show devid b s) + 3 ≤ s.size
    → anchor_resolve early b.tick ≡ none
    → anchor_resolve late b.tick ≡ some utc
    → (restamp utc (build_packet show devid early b s).1.text d).text
      ≡ (build_packet show devid late b s).1.text
unfolding build_packet
build_packet-restamp show devid early late b s d utc plain_text h v same room left unset isset =
    rw (unset, isset)
      (restamp_lem utc o.body made d o.text_is o.no_nul (o.size_is ∙ same) (
        omega (
          arith,
          ap (λ (t : Store). length t.text) (tailer_lem o.body made o.text_is),
          ap (λ (t : List ℕ). length t) o.text_is,
          length-append o.body (b',' ∷ []),
          length-append o.body (b'*' ∷ hex),
          short_hex,
          same,
        )))
  where
    made : Store
    made = packet_body show devid b s

    o : IsOpen s.size made
    o =
        unfold packet_body in
        unfold serialize in
        serialize_from-IsOpen show plain_text _ _ 0 _ _ (begun-IsOpen devid b.timestamp s v h room)

    hex : List ℕ
    hex = hexadecimal (checksum o.body)

    short_hex : length hex ≤ 2
    short_hex = ground (arith, length-hexadecimal (checksum o.body) (checksum-lt o.body))
