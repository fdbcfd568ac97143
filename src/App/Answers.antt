-- ===== src/App/Answers.antt =====
-- firmware/app/app.c: `app_handle_message` against a table of commands and replies (`reply_of`).
use tp5_borda_rojas.Base.{
  ℕ, ◌+◌, Bool, false, ◌||◌, some, [], ◌∷◌, ◌≡◌, ◌≢◌, inl, inr, arith, ◌==◌, Bool-cases,
  if◌then◌else◌, Bytes, codes, u32, c_str, bytes_eq, strcmp_zero_text,
}
use tp5_borda_rojas.Protocol.Message.{cmd, sts, ack, err, Message, enum_value}
use tp5_borda_rojas.App.{
  AppState, Counters, handle_message, handle_command, send_simple_message, build_led_command,
  payload_equals, empty_command,
}
use tp5_borda_rojas.App.Laws.{text_message, status_payload, build_status_message_lem}
use tp5_borda_rojas.App.Replies.{messages_of, send_simple_message_text}

-- The commands for the LED.
abbrev is_led : Bytes → Bool
is_led text =
    bytes_eq text (codes "led=on")
    || (bytes_eq text (codes "led=off") || bytes_eq text (codes "led=toggle"))

abbrev is_known : Bytes → Bool
is_known text = is_led text || (bytes_eq text (codes "ping") || bytes_eq text (codes "status?"))

abbrev is_command : Message → Bool
is_command m = enum_value m.type == enum_value cmd

-- The counters after a message: it is counted, and so is the error if it is no known command.
abbrev pub counted : AppState → Message → AppState
counted s m = record {
  rx_count = u32 (s.rx_count + 1);
  error_count =
      if is_command m
      then if is_known (c_str m.payload) then s.error_count else u32 (s.error_count + 1)
      else u32 (s.error_count + 1);
}

-- The reply to a message, by its type and its text. The status counts the message that asks for it.
abbrev pub reply_of : AppState → Counters → Message → Message
reply_of s c m =
    if is_command m
    then if is_led (c_str m.payload)
      then text_message ack (codes "cmd=ok")
      else if bytes_eq (c_str m.payload) (codes "ping")
      then text_message ack (codes "pong=1")
      else if bytes_eq (c_str m.payload) (codes "status?")
      then text_message sts (status_payload (record s { rx_count = u32 (s.rx_count + 1) }) c)
      else text_message err (codes "code=unknown_cmd")
    else text_message err (codes "code=unexpected_type")

build_led_command-is_led :
    (payload : Bytes) → (build_led_command payload empty_command).0 ≡ is_led (c_str payload)
unfolding build_led_command
build_led_command-is_led payload =
    rw
      (
        ← strcmp_zero_text payload (codes "led=on") (omega arith),
        ← strcmp_zero_text payload (codes "led=off") (omega arith),
        ← strcmp_zero_text payload (codes "led=toggle") (omega arith),
      )
      (ground arith)

payload_equals_text :
    (payload : Bytes)
    → (payload_equals payload (codes "ping") ≡ bytes_eq (c_str payload) (codes "ping"))
      × (payload_equals payload (codes "status?") ≡ bytes_eq (c_str payload) (codes "status?"))
unfolding payload_equals
payload_equals_text payload = (
  strcmp_zero_text payload (codes "ping") (omega arith),
  strcmp_zero_text payload (codes "status?") (omega arith),
)

simple_reply :
    (garbage : Message) (tx : ℕ)
    → (messages_of (send_simple_message garbage tx ack (codes "cmd=ok"))
        ≡ (tx, text_message ack (codes "cmd=ok")) ∷ [])
      × (messages_of (send_simple_message garbage tx ack (codes "pong=1"))
          ≡ (tx, text_message ack (codes "pong=1")) ∷ [])
      × (messages_of (send_simple_message garbage tx err (codes "code=unknown_cmd"))
          ≡ (tx, text_message err (codes "code=unknown_cmd")) ∷ [])
      × (messages_of (send_simple_message garbage tx err (codes "code=unexpected_type"))
          ≡ (tx, text_message err (codes "code=unexpected_type")) ∷ [])
simple_reply garbage tx = (
  rw (
      send_simple_message_text garbage tx ack (codes "cmd=ok") (ground arith) (omega arith)
        (omega arith)),
  rw (
      send_simple_message_text garbage tx ack (codes "pong=1") (ground arith) (omega arith)
        (omega arith)),
  rw (
      send_simple_message_text garbage tx err (codes "code=unknown_cmd") (ground arith)
        (omega arith) (omega arith)),
  rw (
      send_simple_message_text garbage tx err (codes "code=unexpected_type") (ground arith)
        (omega arith) (omega arith)),
)

-- With queues that are there, a message is answered as the table says, in the transmit queue, and the counters
-- count it and its error.
pub handle_message-reply_of :
    (s : AppState) (c : Counters) (garbage m : Message) (tx actuators : ℕ)
    → tx ≢ 0
    → actuators ≢ 0
    → (messages_of (handle_message s c garbage (some m) tx actuators).sends
        ≡ (tx, reply_of s c m) ∷ [])
      × ((handle_message s c garbage (some m) tx actuators).state ≡ counted s m)
unfolding handle_message handle_command
handle_message-reply_of s c garbage m tx actuators p q =
    let there : (tx == 0 || actuators == 0) ≡ false = ground arith in
    let texts = payload_equals_text m.payload in
    let (led_ok, pong, unknown, unexpected) = simple_reply garbage tx in
    elim (Bool-cases (enum_value m.type == enum_value cmd)) [
      | inr other ↦ (rw (there, other) unexpected, rw (there, other))
      | inl command ↦ elim (Bool-cases (is_led (c_str m.payload))) [
        | inl led ↦ (
          rw (there, command, build_led_command-is_led m.payload, led) led_ok,
          rw (there, command, build_led_command-is_led m.payload, led),
        )
        | inr no_led ↦ elim (Bool-cases (bytes_eq (c_str m.payload) (codes "ping"))) [
          | inl ping ↦ (
            rw (there, command, build_led_command-is_led m.payload, no_led, texts.0, ping) pong,
            rw (there, command, build_led_command-is_led m.payload, no_led, texts.0, ping),
          )
          | inr no_ping ↦ elim (Bool-cases (bytes_eq (c_str m.payload) (codes "status?"))) [
            | inl status ↦ (
              rw
                  (
                    there,
                    command,
                    build_led_command-is_led m.payload,
                    no_led,
                    texts.0,
                    no_ping,
                    texts.1,
                    status,
                  )
                  (rw ((build_status_message_lem _ c garbage).0)),
              rw (
                there,
                command,
                build_led_command-is_led m.payload,
                no_led,
                texts.0,
                no_ping,
                texts.1,
                status,
              ),
            )
            | inr none_of ↦ (
              rw
                  (
                    there,
                    command,
                    build_led_command-is_led m.payload,
                    no_led,
                    texts.0,
                    no_ping,
                    texts.1,
                    none_of,
                  )
                  unknown,
              rw (
                there,
                command,
                build_led_command-is_led m.payload,
                no_led,
                texts.0,
                no_ping,
                texts.1,
                none_of,
              ),
            )
          ]
        ]
      ]
    ]
