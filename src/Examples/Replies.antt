-- ===== src/Examples/Replies.antt =====
-- A co-processor that answers each request in the same way.
use vorsprung_logger.Base.{ℕ, ◌≡◌, refl, true, List, [], ◌∷◌, none, some, take, All, arith}
use vorsprung_logger.Text.Number.{digit}
use vorsprung_logger.Uds.Hex.{skip_other, digit_run, behind_run, collect, uds_parse_ascii_hex}
use vorsprung_logger.Uds.Did.{judge, Link, Cuds, read_did}
use vorsprung_logger.Uds.Reply.{IsHead, reply_text, read_did-reply_text}
use vorsprung_logger.Uds.Answers.{Accepted, read_did-Accepted, read_did-refused}

abbrev answering : List ℕ → Link
answering text = record {
  Bus = ℕ;
  set_header_mask = λ mask bus. bus;
  set_header_filter = λ filter bus. bus;
  set_can_id = λ id bus. id;
  send_can_message = λ request bus. (some text, bus);
}

abbrev client : (text : List ℕ) → Cuds (answering text)
client text = record { attached = true; last_nrc = 0; bus = 0 }

-- "7E8" in front, a line's end and the prompt behind.
abbrev sender : List (List ℕ)
sender = (b'7' ∷ b'E' ∷ b'8' ∷ []) ∷ []

abbrev prompt : List ℕ
prompt = 13 ∷ 13 ∷ b'>' ∷ []

abbrev coolant : List ℕ
coolant = reply_text sender (0x62 ∷ 0xF4 ∷ 0x05 ∷ 100 ∷ []) prompt

abbrev out_of_range : List ℕ
out_of_range = reply_text sender (0x7F ∷ 0x22 ∷ 0x31 ∷ []) prompt

sender-IsHead : All IsHead sender
sender-IsHead = (
  record {
    word = record { digits = (refl, (refl, (refl, tt))); nonempty = omega arith };
    not_byte = λ e. omega (arith, e);
  },
  tt,
)

coolant_read : (read_did (answering coolant) 0xF405 0x7E0 (client coolant)).0 ≡ some (100 ∷ [])
unfolding read_did judge uds_parse_ascii_hex collect skip_other digit_run behind_run digit
coolant_read = refl

-- The answer to one request does not serve another.
other_refused : (read_did (answering coolant) 0xF43C 0x7E0 (client coolant)).0 ≡ none
unfolding read_did judge uds_parse_ascii_hex collect skip_other digit_run behind_run digit
other_refused = refl

read_did-reply_text_example :
    (read_did (answering coolant) 0xF405 0x7E0 (client coolant)).0 ≡ some (take 16 (100 ∷ []))
read_did-reply_text_example =
    read_did-reply_text (answering coolant) 0xF405 0x7E0 (client coolant) sender (100 ∷ []) prompt
      (omega arith) sender-IsHead (omega arith, tt) (omega arith) (omega arith)
      (refl, (refl, (refl, tt))) refl refl

read_did-Accepted_example :
    (cells : List ℕ) × ((((answering coolant).send_can_message (0x22 ∷ 0xF4 ∷ 0x05 ∷ []) 0x7E0).0
        ≡ some cells)
      × Accepted 0xF405 (uds_parse_ascii_hex cells 32) (100 ∷ []))
read_did-Accepted_example =
    read_did-Accepted (answering coolant) 0xF405 0x7E0 (client coolant) (100 ∷ []) coolant_read

read_did-refused_example :
    ((read_did (answering out_of_range) 0xF405 0x7E0 (client out_of_range)).0 ≡ none)
    × ((read_did (answering out_of_range) 0xF405 0x7E0 (client out_of_range)).1.last_nrc ≡ 0x31)
read_did-refused_example =
    read_did-refused (answering out_of_range) 0xF405 0x7E0 (client out_of_range) sender 0x22 0x31 []
      prompt sender-IsHead (omega arith, (omega arith, tt)) (refl, (refl, (refl, tt))) refl refl
