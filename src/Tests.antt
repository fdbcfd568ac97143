-- ===== src/Tests.antt =====
-- Runs of the code at fixed inputs, as docs/PROTOCOL.md shows them; the modules below apply the theorems.
mod Data
mod Wire
mod Codec
mod Device
mod Boot
mod Run
mod Sched
use tp5_borda_rojas.Tests.Data.{ping, ping_frame}
use tp5_borda_rojas.Base.{true, false, some, [], ◌≡◌, refl, codes, strlen, c_str}
use tp5_borda_rojas.Protocol.Message.{
  Message, cmd, ack, message_set, is_invalid, type_to_text, type_from_text, enum_value,
}
use tp5_borda_rojas.Protocol.Hex.{nibble_to_hex, hex_char_to_nibble, join_nibbles}
use tp5_borda_rojas.Protocol.Checksum.{compute_checksum}
use tp5_borda_rojas.Protocol.Encode.{encode_frame, checksum_input, print_body, write_frame}
use tp5_borda_rojas.Protocol.Decode.{decode_body, decode_checked}
use tp5_borda_rojas.Protocol.Validate.{validate_frame, checked_body_length}

encode_ping :
    (encode_frame (some ping) (some []) 64 (some 0)).frame ≡ some (codes "@08:CMD:ping:52\n")
unfolding encode_frame checksum_input print_body write_frame compute_checksum nibble_to_hex
    type_to_text strlen c_str
encode_ping = refl

validate_led :
    validate_frame (some (codes "@0a:CMD:led=on:4a\n")) (some ping)
    ≡ (true, some (record { type = cmd; payload = codes "led=on"; payload_length = 6 }))
unfolding validate_frame checked_body_length compute_checksum hex_char_to_nibble join_nibbles strlen
    decode_body decode_checked type_from_text enum_value
validate_led = refl

-- A payload with the start character, which docs/FRAME_GENERATION_AND_PARSING.md rules out.
sets_start :
    message_set (some ping) cmd (some (codes "@"))
    ≡ (true, some (record { type = cmd; payload = codes "@"; payload_length = 1 }))
unfolding message_set is_invalid type_to_text strlen
sets_start = refl

-- The example of a `DAT` frame there.
refuses_example :
    validate_frame (some (codes "@12:DAT:temp=29,seq=1:24\n")) (some ping) ≡ (false, some ping)
unfolding validate_frame checked_body_length compute_checksum hex_char_to_nibble join_nibbles strlen
    decode_body decode_checked type_from_text enum_value
refuses_example = refl
