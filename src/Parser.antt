-- ===== src/Parser.antt =====
-- firmware/protocol/parser.h and parser.c: the incremental parser, one function for each state of the
-- machine. `body` holds all 53 cells of the array, with what earlier frames left in them. A state is
-- one of the nine enumerators, so the `default` branch of the switch has no counterpart.
pub mod Reading
pub mod Ending
pub mod NoFrames
pub mod Steps
pub mod BodySteps
pub mod CheckSteps
pub mod Consume
pub mod Incomplete
pub mod Stream
use tp5_borda_rojas.Base.{
  ℕ, zero, suc, ◌+◌, Bool, true, false, not, ◌||◌, Option, none, some, ◌==◌, ltb, leb,
  if◌then◌else◌, Bytes, cell, set, is_negative, u8, bit_xor,
}
use tp5_borda_rojas.Config.{
  type_length, max_body_size, start_char, separator_char, end_char, carriage_return,
}
use tp5_borda_rojas.Protocol.Message.{Message}
use tp5_borda_rojas.Protocol.Hex.{hex_char_to_nibble, join_nibbles}
use tp5_borda_rojas.Protocol.Decode.{decode_body}

pub data ParserState : Type 0 where
  wait_start read_len_hi read_len_lo expect_len_separator read_body : ParserState
  expect_check_separator read_check_hi read_check_lo expect_end : ParserState

pub data ParserResult : Type 0 where
  in_progress message_ready error : ParserResult

-- `char field[3]`
pub record Field : Type 0 where
  pub hi : ℕ
  pub lo : ℕ
  pub terminator : ℕ

pub record Parser : Type 0 where
  pub state : ParserState
  pub length_field : Field
  pub body : Bytes
  pub checksum_field : Field
  pub expected_body_length : ℕ
  pub body_index : ℕ

-- What a call leaves: the parser, the result returned, and what `message` points to.
pub record Consumed : Type 0 where
  pub parser : Parser
  pub result : ParserResult
  pub message : Option Message

abbrev cleared : Field
cleared = record { hi = 0; lo = 0; terminator = 0 }

-- The body of `parser_reset`; of the array only cell 0 is cleared.
abbrev pub reset : Parser → Parser
reset p = record {
  state = wait_start;
  length_field = cleared;
  checksum_field = cleared;
  body = set p.body 0 0;
  expected_body_length = 0;
  body_index = 0;
}

unfoldable pub parser_reset : Option Parser → Option Parser
parser_reset none = none
parser_reset (some p) = some (reset p)

unfoldable pub parser_init : Option Parser → Option Parser
unfolding parser_reset
parser_init p = parser_reset p

unfoldable pub parser_error : Parser → ℕ → Option Message → Consumed
parser_error p byte out = record {
  parser = if byte == start_char then record (reset p) { state = read_len_hi } else reset p;
  result = error;
  message = out;
}

abbrev pub progress : Parser → Option Message → Consumed
progress p out = record { parser = p; result = in_progress; message = out }

unfoldable pub parser_hex_byte : Field → ℕ
parser_hex_byte field = join_nibbles (hex_char_to_nibble field.hi) (hex_char_to_nibble field.lo)

-- The loop of `parser_checksum_matches` at index `i`, with `left` rounds to go.
unfoldable pub xor_body : ℕ → Bytes → ℕ → ℕ → ℕ
xor_body sum body i zero = sum
xor_body sum body i (suc left) = xor_body (bit_xor sum (cell body i)) body (i + 1) left

unfoldable pub parser_checksum_matches : Parser → Bool
parser_checksum_matches p =
    let start = bit_xor (bit_xor (bit_xor 0 p.length_field.hi) p.length_field.lo) separator_char in
    xor_body start p.body 0 p.expected_body_length == parser_hex_byte p.checksum_field

pub on_wait_start : Parser → ℕ → Option Message → Consumed
on_wait_start p byte out =
    progress (if byte == start_char then record p { state = read_len_hi } else p) out

pub on_read_len_hi : Parser → ℕ → Option Message → Consumed
on_read_len_hi p byte out =
    if is_negative (hex_char_to_nibble byte)
    then parser_error p byte out
    else progress
        (record p { length_field = record (p.length_field) { hi = byte }; state = read_len_lo }) out

pub on_read_len_lo : Parser → ℕ → Option Message → Consumed
on_read_len_lo p byte out =
    if is_negative (hex_char_to_nibble byte)
    then parser_error p byte out
    else let field : Field = record (p.length_field) { lo = byte; terminator = 0 } in
      let expected = parser_hex_byte field in
      let p' : Parser = record p { length_field = field; expected_body_length = expected } in
      if ltb expected (type_length + 1) || ltb max_body_size expected
      then parser_error p' byte out
      else progress (record p' { state = expect_len_separator }) out

pub on_expect_len_separator : Parser → ℕ → Option Message → Consumed
on_expect_len_separator p byte out =
    if not (byte == separator_char)
    then parser_error p byte out
    else progress (record p { body_index = 0; state = read_body }) out

pub on_read_body : Parser → ℕ → Option Message → Consumed
on_read_body p byte out =
    let body' = set p.body p.body_index byte in
    let index = u8 (p.body_index + 1) in
    if leb p.expected_body_length index
    then progress
        (record p { body = set body' index 0; body_index = index; state = expect_check_separator })
        out
    else progress (record p { body = body'; body_index = index }) out

pub on_expect_check_separator : Parser → ℕ → Option Message → Consumed
on_expect_check_separator p byte out =
    if not (byte == separator_char)
    then parser_error p byte out
    else progress (record p { state = read_check_hi }) out

pub on_read_check_hi : Parser → ℕ → Option Message → Consumed
on_read_check_hi p byte out =
    if is_negative (hex_char_to_nibble byte)
    then parser_error p byte out
    else progress
        (record p {
          checksum_field = record (p.checksum_field) { hi = byte };
          state = read_check_lo;
        })
        out

pub on_read_check_lo : Parser → ℕ → Option Message → Consumed
on_read_check_lo p byte out =
    if is_negative (hex_char_to_nibble byte)
    then parser_error p byte out
    else progress
        (record p {
          checksum_field = record (p.checksum_field) { lo = byte; terminator = 0 };
          state = expect_end;
        })
        out

-- Behind the end character: the checksum, then the body. `decoded` is what `protocol_decode_body`
-- returns and leaves in `message`.
abbrev deliver : Parser → Bool × Option Message → Consumed
deliver p (true, out) = record { parser = reset p; result = message_ready; message = out }
deliver p (false, out) = record { parser = reset p; result = error; message = out }

pub finish : Parser → Option Message → Consumed
finish p none = record { parser = reset p; result = error; message = none }
finish p (some old) =
    if not (parser_checksum_matches p)
    then record { parser = reset p; result = error; message = some old }
    else deliver p (decode_body (some p.body) p.expected_body_length (some old))

pub on_expect_end : Parser → ℕ → Option Message → Consumed
on_expect_end p byte out = if not (byte == end_char) then parser_error p byte out else finish p out

pub dispatch : ParserState → Parser → ℕ → Option Message → Consumed
dispatch wait_start p byte out = on_wait_start p byte out
dispatch read_len_hi p byte out = on_read_len_hi p byte out
dispatch read_len_lo p byte out = on_read_len_lo p byte out
dispatch expect_len_separator p byte out = on_expect_len_separator p byte out
dispatch read_body p byte out = on_read_body p byte out
dispatch expect_check_separator p byte out = on_expect_check_separator p byte out
dispatch read_check_hi p byte out = on_read_check_hi p byte out
dispatch read_check_lo p byte out = on_read_check_lo p byte out
dispatch expect_end p byte out = on_expect_end p byte out

-- `parser_consume_byte` on a parser that is there.
unfoldable pub consume : Parser → ℕ → Option Message → Consumed
unfolding dispatch on_wait_start on_read_len_hi on_read_len_lo on_expect_len_separator on_read_body
    on_expect_check_separator on_read_check_hi on_read_check_lo on_expect_end finish
consume p byte out = if byte == carriage_return then progress p out else dispatch p.state p byte out

-- With a null parser nothing happens, and the result is an error.
unfoldable pub parser_consume_byte :
    Option Parser → ℕ → Option Message → Option Parser × ParserResult × Option Message
unfolding consume
parser_consume_byte none byte out = (none, error, out)
parser_consume_byte (some p) byte out =
    let c = consume p byte out in (some c.parser, c.result, c.message)
