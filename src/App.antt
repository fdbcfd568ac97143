-- ===== src/App.antt =====
-- firmware/app/app.c. The calls of `xQueueSend` with `portMAX_DELAY` are the results of the handler, in
-- their order, each with its queue; the queues are the kernel's. A handle is a pointer, 0 the null one.
pub mod Laws
pub mod Replies
pub mod Led
pub mod Answers
pub mod Sends
use tp5_borda_rojas.Base.{
  ℕ, ◌+◌, ◌-◌, Bool, true, false, not, ◌||◌, Option, none, some, List, [], ◌∷◌, ◌++◌, ◌==◌,
  if◌then◌else◌, Bytes, codes, decimal, replicate, snprintf, strcmp_zero, strncpy, u32,
}
use tp5_borda_rojas.Config.{max_payload_length}
use tp5_borda_rojas.Protocol.Message.{
  ProtocolType, cmd, dat, sts, ack, err, Message, enum_value, message_set,
}
use tp5_borda_rojas.Actuators.{ActuatorCommand}
use tp5_borda_rojas.Sensors.{build_telemetry_payload}

-- `g_rx_count` and `g_error_count`
pub record AppState : Type 0 where
  pub rx_count : ℕ
  pub error_count : ℕ

-- The counters of the other modules, as their getters return them.
pub record Counters : Type 0 where
  pub rx_irq_count : ℕ
  pub parser_byte_count : ℕ
  pub parser_message_count : ℕ
  pub parser_error_count : ℕ
  pub rx_drop_count : ℕ

pub data Send : Type 0 where
  send_message : ℕ → Message → Send
  send_command : ℕ → ActuatorCommand → Send

unfoldable pub app_init : AppState → AppState
app_init s = record s { rx_count = 0; error_count = 0 }

-- The message that a call of `protocol_message_set` left, sent if it returned true.
abbrev send_if_set : ℕ → Bool × Option Message → List Send
send_if_set tx (true, some m) = send_message tx m ∷ []
send_if_set tx _ = []

-- `garbage` is the local message before it is set.
unfoldable pub send_simple_message : Message → ℕ → ProtocolType → Bytes → List Send
send_simple_message garbage tx type payload =
    send_if_set tx (message_set (some garbage) type (some payload))

unfoldable pub payload_equals : Bytes → Bytes → Bool
payload_equals payload expected = strcmp_zero payload expected

abbrev target_size : ℕ
target_size = 16

-- `command` after the two calls of `strncpy`.
abbrev pub fill : ActuatorCommand → Bytes → Bytes → ActuatorCommand
fill command target action = record {
  target = strncpy command.target target (target_size - 1);
  action = strncpy command.action action (target_size - 1);
}

unfoldable pub build_led_command : Bytes → ActuatorCommand → Bool × ActuatorCommand
unfolding payload_equals
build_led_command payload command =
    if payload_equals payload (codes "led=on")
    then (true, fill command (codes "led") (codes "on"))
    else if payload_equals payload (codes "led=off")
    then (true, fill command (codes "led") (codes "off"))
    else if payload_equals payload (codes "led=toggle")
    then (true, fill command (codes "led") (codes "toggle"))
    else (false, command)

-- The text that `snprintf` prints for the status.
unfoldable pub status_text : AppState → Counters → Bytes
status_text s c =
    codes "rx="
    ++ (decimal s.rx_count
        ++ (codes ",ae="
            ++ (decimal s.error_count
                ++ (codes ",irq="
                    ++ (decimal c.rx_irq_count
                        ++ (codes ",pb="
                            ++ (decimal c.parser_byte_count
                                ++ (codes ",pm="
                                    ++ (decimal c.parser_message_count
                                        ++ (codes ",pe="
                                            ++ (decimal c.parser_error_count
                                                ++ (codes ",qd="
                                                    ++ decimal c.rx_drop_count))))))))))))

-- What `message` points to afterwards.
unfoldable pub build_status_message : AppState → Counters → Option Message → Option Message
build_status_message s c none = none
build_status_message s c (some old) =
    let payload = (snprintf (max_payload_length + 1) (status_text s c)).0 in
    (message_set (some old) sts (some payload)).1

abbrev telemetry_set : Message → Bool × Option Bytes → Bool × Option Message
telemetry_set old (true, payload) = message_set (some old) dat payload
telemetry_set old (false, payload) = (false, some old)

-- `garbage` is the local payload before it is printed.
unfoldable pub build_telemetry_message : Bytes → Option Message → ℕ → Bool × Option Message
build_telemetry_message garbage none sequence = (false, none)
build_telemetry_message garbage (some old) sequence =
    telemetry_set old (build_telemetry_payload (some garbage) (max_payload_length + 1) sequence)

-- What the handler leaves: its counters and the calls of `xQueueSend` that it made.
pub record Handled : Type 0 where
  pub state : AppState
  pub sends : List Send

abbrev count_error : AppState → AppState
count_error s = record s { error_count = u32 (s.error_count + 1) }

abbrev send_status : ℕ → Option Message → List Send
send_status tx none = []
send_status tx (some m) = send_message tx m ∷ []

abbrev empty_command : ActuatorCommand
empty_command = record { target = replicate 16 0; action = replicate 16 0 }

-- A message of type CMD.
unfoldable pub handle_command : AppState → Counters → Message → Message → ℕ → ℕ → Handled
handle_command s c garbage m tx actuators =
    let built = build_led_command m.payload empty_command in
    if built.0
    then record {
      state = s;
      sends = send_command actuators built.1 ∷ send_simple_message garbage tx ack (codes "cmd=ok");
    }
    else if payload_equals m.payload (codes "ping")
    then record { state = s; sends = send_simple_message garbage tx ack (codes "pong=1") }
    else if payload_equals m.payload (codes "status?")
    then record { state = s; sends = send_status tx (build_status_message s c (some garbage)) }
    else record {
      state = count_error s;
      sends = send_simple_message garbage tx err (codes "code=unknown_cmd");
    }

unfoldable pub handle_message : AppState → Counters → Message → Option Message → ℕ → ℕ → Handled
unfolding handle_command
handle_message s c garbage none tx actuators = record { state = s; sends = [] }
handle_message s c garbage (some m) tx actuators =
    if tx == 0 || actuators == 0
    then record { state = s; sends = [] }
    else let s' : AppState = record s { rx_count = u32 (s.rx_count + 1) } in
      if not (enum_value m.type == enum_value cmd)
      then record {
        state = count_error s';
        sends = send_simple_message garbage tx err (codes "code=unexpected_type");
      }
      else handle_command s' c garbage m tx actuators
