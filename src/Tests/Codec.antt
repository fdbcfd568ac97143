-- ===== src/Tests/Codec.antt =====
-- The theorems on the frames, applied.
use tp5_borda_rojas.Base.{
  ◌≤◌, ◌<◌, ◌≡◌, ◌≢◌, ◌↔◌, ◌⊎◌, true, false, some, [], refl, arith, Bytes, codes, length, strlen,
}
use tp5_borda_rojas.Config.{max_payload_length, max_frame_size}
use tp5_borda_rojas.Protocol.Message.{invalid, ack, enum_value, type_from_text, message_set}
use tp5_borda_rojas.Protocol.Message.Laws.{message_set_lem}
use tp5_borda_rojas.Protocol.Hex.{hex_char_to_nibble, join_nibbles}
use tp5_borda_rojas.Protocol.Decode.{decode_body, decode_checked}
use tp5_borda_rojas.Protocol.Checksum.{compute_checksum}
use tp5_borda_rojas.Protocol.Spec.{IsFrame}
use tp5_borda_rojas.Protocol.Encode.{encode_frame}
use tp5_borda_rojas.Protocol.Encode.Laws.{Success, Failure, encode_frame_lem}
use tp5_borda_rojas.Protocol.Validate.{checked_body_length, validate_frame}
use tp5_borda_rojas.Protocol.Validate.Laws.{Verdict, validate_frame_lem}
use tp5_borda_rojas.Protocol.RoundTrip.{validate-encode}
use tp5_borda_rojas.Protocol.Canonical.{HasCapitals, encode_frame_iff, encode-validate}
use tp5_borda_rojas.Protocol.OneByte.{validate_frame-one_byte}
use tp5_borda_rojas.Tests.Data.{ping, pong, led_on, ping_frame, ping-IsSendable}

validate_frame_lem_example : Verdict ping_frame pong (validate_frame (some ping_frame) (some pong))
validate_frame_lem_example = validate_frame_lem ping_frame pong (ground arith)

validate-encode_example :
    (f : Bytes) × (encode_frame (some ping) (some []) max_frame_size (some 0)
      ≡ record { ok = true; frame = some f; frame_length = some (length f) })
    × (validate_frame (some f) (some pong) ≡ (true, some ping))
validate-encode_example = validate-encode ping pong [] 0 ping-IsSendable (ground arith)

encode_frame_lem_example :
    Success ping 64 (some 0) (encode_frame (some ping) (some []) 64 (some 0))
    ⊎ Failure ping [] 64 (some 0) (encode_frame (some ping) (some []) 64 (some 0))
encode_frame_lem_example = encode_frame_lem ping [] 64 (some 0) refl (ground arith)

message_set_lem_example :
    ((ack ≢ invalid)
      × (length (codes "cmd=ok") ≤ max_payload_length)
      × (message_set (some ping) ack (some (codes "cmd=ok"))
          ≡ (true, some (record { type = ack; payload = codes "cmd=ok"; payload_length = 6 }))))
    ⊎ (((ack ≡ invalid) ⊎ (max_payload_length < length (codes "cmd=ok")))
        × (message_set (some ping) ack (some (codes "cmd=ok")) ≡ (false, some ping)))
message_set_lem_example = message_set_lem ping ack (codes "cmd=ok") (ground arith)

abbrev led_frame : Bytes
led_frame = codes "@0A:CMD:led=on:6A\n"

led_frame-HasCapitals : HasCapitals led_frame
led_frame-HasCapitals = record {
  len = (omega arith, (omega arith, tt));
  check = (omega arith, (omega arith, tt));
}

validates_led : validate_frame (some led_frame) (some ping) ≡ (true, some led_on)
unfolding validate_frame checked_body_length compute_checksum hex_char_to_nibble join_nibbles strlen
    decode_body decode_checked type_from_text enum_value
validates_led = refl

encode-validate_example :
    encode_frame (some led_on) (some []) max_frame_size (some 0)
    ≡ record { ok = true; frame = some led_frame; frame_length = some (length led_frame) }
encode-validate_example =
    encode-validate led_frame led_on ping [] 0 (ground arith) led_frame-HasCapitals validates_led

encode_frame_iff_example :
    (encode_frame (some ping) (some []) max_frame_size (some 0)
      ≡ record { ok = true; frame = some ping_frame; frame_length = some (length ping_frame) })
    ↔ (IsFrame ping_frame ping × HasCapitals ping_frame)
encode_frame_iff_example = encode_frame_iff ping ping_frame [] 0 ping-IsSendable (ground arith)

validates_ping : validate_frame (some ping_frame) (some pong) ≡ (true, some ping)
unfolding validate_frame checked_body_length compute_checksum hex_char_to_nibble join_nibbles strlen
    decode_body decode_checked type_from_text enum_value
validates_ping = refl

-- Where an `n` becomes an `m`.
validate_frame-one_byte_example :
    (validate_frame (some (codes "@08:CMD:pimg:52\n")) (some pong) ≡ (false, some pong))
    ⊎ (validate_frame (some (codes "@08:CMD:pimg:52\n")) (some pong) ≡ (true, some ping))
validate_frame-one_byte_example =
    validate_frame-one_byte (codes "@08:CMD:pi") (codes "g:52\n") b'n' b'm' ping pong pong
      (ground arith) (omega arith) validates_ping
