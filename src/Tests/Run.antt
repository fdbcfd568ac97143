-- ===== src/Tests/Run.antt =====
-- The whole system from power-on to the reply to a `ping`, step by step.
use tp5_borda_rojas.Base.{
  Bool, false, none, some, List, [], ◌∷◌, ◌++◌, ◌≡◌, refl, Option, Bytes, codes,
}
use tp5_borda_rojas.Base.{strcmp_zero, bytes_eq, c_str, strlen}
use tp5_borda_rojas.Actuators.{apply_command, actuators_init}
use tp5_borda_rojas.Uart.{usart1_isr, set_rx_queue, send_bytes}
use tp5_borda_rojas.Parser.{
  parser_init, parser_reset, consume, parser_hex_byte, parser_checksum_matches, xor_body,
}
use tp5_borda_rojas.Tasks.ParserTask.{parser_round}
use tp5_borda_rojas.Tasks.UartTx.{tx_round}
use tp5_borda_rojas.Protocol.Hex.{hex_char_to_nibble, join_nibbles, nibble_to_hex}
use tp5_borda_rojas.Protocol.Decode.{decode_body, decode_checked}
use tp5_borda_rojas.Protocol.Message.{
  type_from_text, enum_value, message_set, is_invalid, type_to_text,
}
use tp5_borda_rojas.App.{
  app_init, handle_message, handle_command, build_led_command, payload_equals, send_simple_message,
}
use tp5_borda_rojas.Protocol.Encode.{encode_frame, checksum_input, write_frame, print_body}
use tp5_borda_rojas.Protocol.Checksum.{compute_checksum, checksum_loop}
use tp5_borda_rojas.Firmware.{act}
use tp5_borda_rojas.Firmware.{
  Action, interrupt, rx_receive, rx_send, parse, parser_send, handle, app_send, transmit, actuate,
  System,
}
use tp5_borda_rojas.Firmware.Measure.{act_all}
use tp5_borda_rojas.Tests.Data.{pin, queues, ping_frame}
use tp5_borda_rojas.Tests.Boot.{env, start}

-- Each byte is taken to the parser before the next one comes.
abbrev byte_turns : Bytes → List Action
byte_turns [] = []
byte_turns (b ∷ bs) = interrupt b ∷ rx_receive ∷ rx_send ∷ parse ∷ byte_turns bs

abbrev line_of : Option (System queues pin) → Bytes
line_of none = []
line_of (some s) = s.line

abbrev led_frame : Bytes
led_frame = codes "@0a:CMD:led=on:4a\n"

-- The replies on the line and the level of the pin, which is high at the start.
abbrev seen : Option (System queues pin) → Bytes × Bool
seen none = ([], false)
seen (some s) = (s.line, s.pin)

abbrev replying : List Action
replying = parser_send ∷ handle ∷ app_send ∷ transmit ∷ []

-- A `ping` is answered.
ping_reply :
    line_of (act_all queues pin env start (byte_turns ping_frame ++ replying))
    ≡ codes "@0A:ACK:pong=1:22\r\n"
unfolding act act_all usart1_isr set_rx_queue parser_init parser_reset parser_round consume
    parser_hex_byte parser_checksum_matches xor_body hex_char_to_nibble join_nibbles decode_body
    decode_checked type_from_text enum_value app_init handle_message handle_command
    build_led_command payload_equals send_simple_message message_set is_invalid strcmp_zero bytes_eq
    c_str strlen tx_round encode_frame checksum_input write_frame print_body compute_checksum
    checksum_loop nibble_to_hex type_to_text send_bytes
ping_reply = refl

-- `led=on` drives the pin low and is answered, also when the command is applied last.
led_reply :
    seen (
      act_all queues pin env start (
        byte_turns led_frame
        ++ (parser_send ∷ handle ∷ app_send ∷ app_send ∷ transmit ∷ actuate ∷ [])))
    ≡ (codes "@0A:ACK:cmd=ok:6B\r\n", false)
unfolding act act_all apply_command actuators_init usart1_isr set_rx_queue parser_init parser_reset
    parser_round consume parser_hex_byte parser_checksum_matches xor_body hex_char_to_nibble
    join_nibbles decode_body decode_checked type_from_text enum_value app_init handle_message
    handle_command build_led_command payload_equals send_simple_message message_set is_invalid
    strcmp_zero bytes_eq c_str strlen tx_round encode_frame checksum_input write_frame print_body
    compute_checksum checksum_loop nibble_to_hex type_to_text send_bytes
led_reply = refl
