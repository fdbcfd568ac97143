-- ===== src/Protocol/Encode.antt =====
-- firmware/protocol/protocol.c: `protocol_encode_frame`.
pub mod Input
pub mod Frame
pub mod Laws
use tp5_borda_rojas.Base.{
  ℕ, ◌+◌, ◌-◌, ◌/◌, ◌%◌, ◌^◌, Bool, true, false, not, ◌||◌, Option, none, some, List, [], ◌∷◌, ◌++◌,
  ◌==◌, ltb, leb, if◌then◌else◌, guard, ◌>>=◌, ◌>>◌, Bytes, c_str, strlen, snprintf, u8,
}
use tp5_borda_rojas.Config.{
  type_length, max_body_size, max_payload_length, start_char, separator_char, end_char,
}
use tp5_borda_rojas.Protocol.Message.{Message, type_to_text, is_invalid}
use tp5_borda_rojas.Protocol.Hex.{nibble_to_hex}
use tp5_borda_rojas.Protocol.Checksum.{compute_checksum}

-- What `%02X` prints of a number below 256.
abbrev pub hex_digit : ℕ → ℕ
hex_digit d = if ltb d 10 then d + b'0' else d - 10 + b'A'

abbrev pub format_02x : ℕ → Bytes
format_02x n = hex_digit (n / 16) ∷ hex_digit (n % 16) ∷ []

-- `sizeof(checksum_input)`
abbrev pub checksum_input_size : ℕ
checksum_input_size = 3 + 1 + max_body_size + 1

-- The `snprintf` of `TTT:PAYLOAD` behind the three cells of `LL:`, and its result.
unfoldable pub print_body : Message → Bytes × ℕ
print_body m =
    snprintf (checksum_input_size - 3)
      (c_str (type_to_text m.type) ++ (separator_char ∷ c_str m.payload))

-- `checksum_input` with `checksum_input_length`, or `none` where the code returns before that.
unfoldable pub checksum_input : Message → Option (Bytes × ℕ)
unfolding is_invalid
checksum_input m = do
  guard (not (is_invalid m.type))
  let payload_length = strlen m.payload
  guard (not (ltb max_payload_length payload_length || not (payload_length == m.payload_length)))
  let body_length = type_length + 1 + payload_length
  guard (not (ltb max_body_size body_length))
  let checksum_input_length = 2 + 1 + body_length
  guard (not (leb checksum_input_size checksum_input_length))
  let written = print_body m
  guard (written.1 == body_length)
  some (
    nibble_to_hex (u8 (body_length / 2 ^ 4))
        ∷ nibble_to_hex (u8 body_length)
        ∷ separator_char
        ∷ written.0,
    checksum_input_length,
  )

-- The flag returned, and what `frame` and `frame_length` point to then.
pub record Encoded : Type 0 where
  pub ok : Bool
  pub frame : Option Bytes
  pub frame_length : Option ℕ

abbrev pub store : Option ℕ → ℕ → Option ℕ
store none n = none
store (some old) n = some n

-- The part behind the checksum's input: the checksum, the size check and the frame itself.
unfoldable pub write_frame : Bytes → ℕ → Bytes → ℕ → Option ℕ → Encoded
write_frame input n old frame_size frame_length =
    let checksum = compute_checksum (some input) n in
    let required_length = 1 + n + 1 + 2 + 1 in
    if leb frame_size required_length
    then record { ok = false; frame = some old; frame_length = frame_length }
    else let written = snprintf frame_size (
        start_char
        ∷ (c_str input ++ (separator_char ∷ (format_02x checksum ++ (end_char ∷ []))))) in
      if not (written.1 == required_length)
      then record { ok = false; frame = some written.0; frame_length = frame_length }
      else record {
        ok = true;
        frame = some written.0;
        frame_length = store frame_length required_length;
      }

unfoldable pub encode_frame : Option Message → Option Bytes → ℕ → Option ℕ → Encoded
encode_frame none frame frame_size frame_length = record {
  ok = false;
  frame = frame;
  frame_length = frame_length;
}
encode_frame (some m) none frame_size frame_length = record {
  ok = false;
  frame = none;
  frame_length = frame_length;
}
encode_frame (some m) (some old) frame_size frame_length = elim (checksum_input m) [
  | none ↦ record { ok = false; frame = some old; frame_length = frame_length }
  | some (input, n) ↦ write_frame input n old frame_size frame_length
]
