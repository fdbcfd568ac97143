-- ===== src/Parser/Reading.antt =====
-- firmware/protocol/parser.c: what each state of the parser remembers, and what a byte may do to it.
use tp5_borda_rojas.Base.{
  ℕ, ◌+◌, ◌≤◌, ◌<◌, some, [], ◌∷◌, ◌++◌, ◌≡◌, ◌≢◌, false, ◌==◌, if◌then◌else◌, Bytes, length, take,
  is_negative,
}
use tp5_borda_rojas.Config.{max_body_size, start_char, separator_char}
use tp5_borda_rojas.Protocol.Message.{Message}
use tp5_borda_rojas.Protocol.Hex.{hex_char_to_nibble}
use tp5_borda_rojas.Protocol.Hex.Laws.{HexPair}
use tp5_borda_rojas.Protocol.Spec.{IsFrame}
use tp5_borda_rojas.Parser.{
  ParserState, wait_start, read_len_hi, read_len_lo, expect_len_separator, read_body,
  expect_check_separator, read_check_hi, read_check_lo, expect_end, in_progress, message_ready,
  error, Parser, Consumed,
}

-- `LL` has been read and is in range.
pub record HasLength (p : Parser) : Type 0 where
  pub digits : HexPair p.length_field.hi p.length_field.lo p.expected_body_length
  pub at_least : 4 ≤ p.expected_body_length
  pub at_most : p.expected_body_length ≤ max_body_size

-- `@LL:` with what follows.
abbrev pub lead : Parser → Bytes → Bytes
lead p rest = start_char ∷ p.length_field.hi ∷ p.length_field.lo ∷ separator_char ∷ rest

-- The body as read when its last byte has come.
abbrev pub whole_body : Parser → Bytes
whole_body p = take p.expected_body_length p.body

abbrev pub Reading : ParserState → Parser → Bytes → Type 0
Reading wait_start p seen = seen ≡ []
Reading read_len_hi p seen = seen ≡ start_char ∷ []
Reading read_len_lo p seen =
    (is_negative (hex_char_to_nibble p.length_field.hi) ≡ false)
    × (seen ≡ start_char ∷ p.length_field.hi ∷ [])
Reading expect_len_separator p seen =
    HasLength p × (seen ≡ start_char ∷ p.length_field.hi ∷ p.length_field.lo ∷ [])
Reading read_body p seen =
    HasLength p
    × (p.body_index < p.expected_body_length)
    × (seen ≡ lead p (take p.body_index p.body))
Reading expect_check_separator p seen = HasLength p × (seen ≡ lead p (whole_body p))
Reading read_check_hi p seen = HasLength p × (seen ≡ lead p (whole_body p ++ (separator_char ∷ [])))
Reading read_check_lo p seen =
    HasLength p
    × (is_negative (hex_char_to_nibble p.checksum_field.hi) ≡ false)
    × (seen ≡ lead p (whole_body p ++ (separator_char ∷ p.checksum_field.hi ∷ [])))
Reading expect_end p seen =
    HasLength p
    × (is_negative (hex_char_to_nibble p.checksum_field.hi) ≡ false)
    × (is_negative (hex_char_to_nibble p.checksum_field.lo) ≡ false)
    × (seen
        ≡ lead p
            (whole_body p ++ (separator_char ∷ p.checksum_field.hi ∷ p.checksum_field.lo ∷ [])))

-- The parser is well formed and has kept exactly the bytes `seen` of a frame that is coming in.
pub record IsReading (p : Parser) (seen : Bytes) : Type 0 where
  pub size : length p.body ≡ max_body_size + 1
  pub reading : Reading p.state p seen

-- What is left of the input after an error: `@` begins a new frame.
abbrev pub restart : ℕ → Bytes
restart byte = if byte == start_char then start_char ∷ [] else []

-- No frame begins with these bytes.
abbrev pub NoFrame : Bytes → Type 0
NoFrame f = (rest : Bytes) (m : Message) → ¬ IsFrame (f ++ rest) m

-- What one byte does to a parser that has kept `seen`.
pub data Advance (seen : Bytes) (byte : ℕ) (old : Message) (c : Consumed) : Type 0 where
  more :
      c.result ≡ in_progress
      → c.message ≡ some old
      → IsReading c.parser (seen ++ (byte ∷ []))
      → Advance seen byte old c
  skipped :
      c.result ≡ in_progress
      → c.message ≡ some old
      → seen ≡ []
      → byte ≢ start_char
      → IsReading c.parser []
      → Advance seen byte old c
  delivered :
      (m : Message)
      → c.result ≡ message_ready
      → c.message ≡ some m
      → IsFrame (seen ++ (byte ∷ [])) m
      → IsReading c.parser []
      → Advance seen byte old c
  lost :
      c.result ≡ error
      → c.message ≡ some old
      → NoFrame (seen ++ (byte ∷ []))
      → IsReading c.parser (restart byte)
      → Advance seen byte old c
