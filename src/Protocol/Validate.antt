-- ===== src/Protocol/Validate.antt =====
-- firmware/protocol/protocol.c: `protocol_validate_frame`.
pub mod Shape
pub mod Laws
use tp5_borda_rojas.Base.{
  ℕ, ◌+◌, ◌-◌, Bool, true, false, not, ◌||◌, Option, none, some, ◌==◌, ltb, guard, ◌>>=◌, ◌>>◌,
  Bytes, cell, drop, strlen, is_negative,
}
use tp5_borda_rojas.Config.{type_length, max_body_size, start_char, separator_char, end_char}
use tp5_borda_rojas.Protocol.Message.{Message}
use tp5_borda_rojas.Protocol.Hex.{hex_char_to_nibble, join_nibbles}
use tp5_borda_rojas.Protocol.Checksum.{compute_checksum}
use tp5_borda_rojas.Protocol.Decode.{decode_body}

-- The checks in their order; `some` gives `expected_body_length` when all of them pass.
unfoldable pub checked_body_length : Bytes → Option ℕ
checked_body_length frame = do
  let frame_length = strlen frame
  guard (not (ltb frame_length 12))
  guard (
      not (
        not (cell frame 0 == start_char)
        || not (cell frame 3 == separator_char)
        || not (cell frame (frame_length - 1) == end_char)))
  let len_hi = hex_char_to_nibble (cell frame 1)
  let len_lo = hex_char_to_nibble (cell frame 2)
  guard (not (is_negative len_hi || is_negative len_lo))
  let expected = join_nibbles len_hi len_lo
  guard (not (ltb expected (type_length + 1) || ltb max_body_size expected))
  let checksum_separator = 4 + expected
  guard (frame_length == 1 + 2 + 1 + expected + 1 + 2 + 1)
  guard (cell frame checksum_separator == separator_char)
  let check_hi = hex_char_to_nibble (cell frame (checksum_separator + 1))
  let check_lo = hex_char_to_nibble (cell frame (checksum_separator + 2))
  guard (not (is_negative check_hi || is_negative check_lo))
  guard
      (compute_checksum (some (drop 1 frame)) (2 + 1 + expected) == join_nibbles check_hi check_lo)
  some expected

unfoldable pub validate_frame : Option Bytes → Option Message → Bool × Option Message
validate_frame none out = (false, out)
validate_frame (some frame) none = (false, none)
validate_frame (some frame) (some old) = elim (checked_body_length frame) [
  | none ↦ (false, some old)
  | some expected ↦ decode_body (some (drop 4 frame)) expected (some old)
]
