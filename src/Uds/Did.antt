-- ===== src/Uds/Did.antt =====
-- `CUDS` of libraries/FreematicsPlus/FreematicsUDS.cpp: a request to read one datum by its
-- identifier. The co-processor behind `COBD` is a parameter.
use vorsprung_logger.Base.{
  ℕ, ◌+◌, ◌*◌, ◌/◌, ◌%◌, Bool, true, not, ◌==◌, leb, ltb, if◌then◌else◌, List, [], ◌∷◌, Option,
  none, some, length, get_or, take, drop, u8_mod,
}
use vorsprung_logger.Uds.Hex.{uds_parse_ascii_hex}

abbrev pub uds_req_engine : ℕ
uds_req_engine = 0x7E0

abbrev pub uds_rx_wide_filter : ℕ
uds_rx_wide_filter = 0x7E0

abbrev pub uds_rx_wide_mask : ℕ
uds_rx_wide_mask = 0xFFFFF800

abbrev pub uds_max_payload : ℕ
uds_max_payload = 16

-- The calls of `COBD`. `send_can_message` gives the text that came back, or nothing when it reports
-- no length.
pub record Link : Type 1 where
  pub Bus : Type 0
  pub set_header_mask : ℕ → Bus → Bus
  pub set_header_filter : ℕ → Bus → Bus
  pub set_can_id : ℕ → Bus → Bus
  pub send_can_message : List ℕ → Bus → Option (List ℕ) × Bus

-- What `readDID` makes of the bytes: the payload, and the code of a negative response.
unfoldable pub judge : ℕ → List ℕ → Option (List ℕ) × ℕ
judge did uds =
    let values = drop 3 uds in
    if length uds == 0
    then (none, 0)
    else if get_or uds 0 0 == 0x7F
    then (none, if leb 3 (length uds) then get_or uds 2 0 else 0)
    else if not (get_or uds 0 0 == 0x62)
    then (none, 0)
    else if ltb (length uds) 3
    then (none, 0)
    else if not (get_or uds 1 0 * u8_mod + get_or uds 2 0 == did)
    then (none, 0)
    else if length values == 0
    then (none, 0)
    else (some (take uds_max_payload values), 0)

abbrev pub judge_text : ℕ → Option (List ℕ) → Option (List ℕ) × ℕ
judge_text did none = (none, 0)
judge_text did (some cells) = judge did (uds_parse_ascii_hex cells 32)

module _ (link : Link) where
  open link use {Bus, set_header_mask, set_header_filter, set_can_id, send_can_message}

  -- `m_obd` is set, the last negative response, and the link behind it.
  pub record Cuds : Type 0 where
    pub attached : Bool
    pub last_nrc : ℕ
    pub bus : Bus

  -- The filter and the header for a request to `req_id`.
  abbrev pub address : ℕ → Bus → Bus
  address req_id bus =
      set_can_id req_id
        (set_header_filter uds_rx_wide_filter (set_header_mask uds_rx_wide_mask bus))

  unfoldable pub apply_header_config : Cuds → Cuds
  apply_header_config u = if u.attached then record u { bus = address uds_req_engine u.bus } else u

  unfoldable pub begin : Cuds → Cuds
  begin u = apply_header_config (record u { attached = true })

  unfoldable pub read_did : ℕ → ℕ → Cuds → Option (List ℕ) × Cuds
  read_did did req_id u =
      let request : List ℕ = 0x22 ∷ (did / u8_mod % u8_mod) ∷ (did % u8_mod) ∷ [] in
      let (answer, bus') = send_can_message request (address req_id u.bus) in
      let (payload, nrc) = judge_text did answer in
      if u.attached
      then (payload, record u { last_nrc = nrc; bus = bus' })
      else (none, record u { last_nrc = 0 })
