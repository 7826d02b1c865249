-- ===== src/Uds/Answers.antt =====
-- The answers that `readDID` (libraries/FreematicsPlus/FreematicsUDS.cpp) refuses, and what an
-- accepted one is known to be.
use vorsprung_logger.Base.{
  ℕ, ◌+◌, ◌*◌, ◌/◌, ◌%◌, ◌≤◌, ◌≡◌, refl, ap, true, false, List, [], ◌∷◌, Option, none, some, length,
  take, All, arith, length-take,
}
use vorsprung_logger.Uds.Hex.{is_xdigit, uds_parse_ascii_hex}
use vorsprung_logger.Uds.Did.{judge, judge_text, Link, Cuds, address, read_did}
use vorsprung_logger.Uds.Reply.{AreBytes, IsHead, reply_text, collect-reply_text}

-- What a request of `did` has got when its payload is `p`.
pub record Accepted (did : ℕ) (uds p : List ℕ) : Type 0 where
  pub hi : ℕ
  pub lo : ℕ
  pub values : List ℕ
  pub bytes : uds ≡ 0x62 ∷ hi ∷ lo ∷ values
  pub echo : hi * 256 + lo ≡ did
  pub payload : p ≡ take 16 values
  pub some_value : 1 ≤ length p
  pub fits : length p ≤ 16

judge-facts :
    (did a b c : ℕ) (values p : List ℕ)
    → (judge did (a ∷ b ∷ c ∷ values)).0 ≡ some p
    → (a ≡ 0x62) × (b * 256 + c ≡ did) × (1 ≤ length values) × (p ≡ take 16 values)
unfolding judge
judge-facts did a b c values p h = ground arith

judge-Accepted : (did : ℕ) (uds p : List ℕ) → (judge did uds).0 ≡ some p → Accepted did uds p
unfolding judge
judge-Accepted did [] p h = absurd (ground arith)
judge-Accepted did (a ∷ []) p h = absurd (ground arith)
judge-Accepted did (a ∷ b ∷ []) p h = absurd (ground arith)
judge-Accepted did (a ∷ b ∷ c ∷ values) p h =
    let (service, echoed, some_value, first) = judge-facts did a b c values p h in
    record {
      hi = b;
      lo = c;
      values = values;
      bytes = ap (λ s. s ∷ b ∷ c ∷ values) service;
      echo = echoed;
      payload = first;
      some_value = rw (first, length-take 16 values) (omega arith);
      fits = rw (first, length-take 16 values) (omega arith);
    }

judge_text-Accepted :
    (did : ℕ) (answer : Option (List ℕ)) (p : List ℕ)
    → (judge_text did answer).0 ≡ some p
    → (cells : List ℕ) × ((answer ≡ some cells) × Accepted did (uds_parse_ascii_hex cells 32) p)
judge_text-Accepted did none p h = absurd (ground arith)
judge_text-Accepted did (some cells) p h =
    (cells, (refl, judge-Accepted did (uds_parse_ascii_hex cells 32) p h))

-- A payload that `readDID` returns has from one to sixteen bytes, the first ones behind the service
-- byte 0x62 and the identifier that was asked for. These stand where `udsParseAsciiHex` takes the
-- answer to begin, whatever it has passed over before.
pub read_did-Accepted :
    (link : Link) (did req_id : ℕ) (u : Cuds link) (p : List ℕ)
    → (read_did link did req_id u).0 ≡ some p
    → (cells : List ℕ) × (((link.send_can_message
            (0x22 ∷ (did / 256 % 256) ∷ (did % 256) ∷ [])
            (address link req_id u.bus)).0
          ≡ some cells)
        × Accepted did (uds_parse_ascii_hex cells 32) p)
unfolding read_did
read_did-Accepted link did req_id u p h =
    let request : List ℕ = 0x22 ∷ (did / 256 % 256) ∷ (did % 256) ∷ [] in
    judge_text-Accepted did (link.send_can_message request (address link req_id u.bus)).0 p
      (ground arith)

-- A negative answer (the service byte 0x7F, the service refused and a code) gives no payload, and
-- its code is the last one.
pub read_did-refused :
    (link : Link) (did req_id : ℕ) (u : Cuds link) (heads : List (List ℕ)) (sid nrc : ℕ)
    (more tail : List ℕ)
    → All IsHead heads
    → AreBytes (sid ∷ nrc ∷ more)
    → All (λ c. is_xdigit c ≡ false) tail
    → u.attached ≡ true
    → (link.send_can_message
        (0x22 ∷ (did / 256 % 256) ∷ (did % 256) ∷ [])
        (address link req_id u.bus)).0
      ≡ some (reply_text heads (0x7F ∷ sid ∷ nrc ∷ more) tail)
    → ((read_did link did req_id u).0 ≡ none) × ((read_did link did req_id u).1.last_nrc ≡ nrc)
unfolding read_did judge uds_parse_ascii_hex
read_did-refused link did req_id u heads sid nrc more tail h k l on answered =
    rw (on, answered, collect-reply_text heads (0x7F ∷ sid ∷ nrc ∷ more) tail h (omega arith, k) l)
      (ground arith, ground arith)
