-- ===== src/App/Sends.antt =====
-- firmware/app/app.c: how many calls of `xQueueSend` a message leads to.
use tp5_borda_rojas.Base.{
  ℕ, ◌≤◌, Bool, true, false, ◌||◌, Option, none, some, inl, inr, arith, ◌==◌, Bool-cases, Bytes,
  codes, length,
}
use tp5_borda_rojas.Protocol.Message.{ProtocolType, Message, cmd, enum_value}
use tp5_borda_rojas.App.{
  AppState, Counters, send_if_set, send_simple_message, build_led_command, payload_equals,
  send_status, empty_command, handle_command, handle_message,
}

length-send_if_set : (tx : ℕ) (r : Bool × Option Message) → length (send_if_set tx r) ≤ 1
length-send_if_set tx (true, some m) = omega arith
length-send_if_set tx (true, none) = omega arith
length-send_if_set tx (false, r) = omega arith

length-send_simple_message :
    (garbage : Message) (tx : ℕ) (t : ProtocolType) (payload : Bytes)
    → length (send_simple_message garbage tx t payload) ≤ 1
unfolding send_simple_message
length-send_simple_message garbage tx t payload = length-send_if_set tx _

length-send_status : (tx : ℕ) (r : Option Message) → length (send_status tx r) ≤ 1
length-send_status tx none = omega arith
length-send_status tx (some m) = omega arith

length-handle_command :
    (s : AppState) (c : Counters) (garbage m : Message) (tx actuators : ℕ)
    → length (handle_command s c garbage m tx actuators).sends ≤ 2
unfolding handle_command
length-handle_command s c garbage m tx actuators =
    elim (Bool-cases (build_led_command m.payload empty_command).0) [
      | inl led ↦ rw led (omega (arith, length-send_simple_message))
      | inr no_led ↦ rw no_led (elim (Bool-cases (payload_equals m.payload (codes "ping"))) [
        | inl ping ↦ rw ping (omega (arith, length-send_simple_message))
        | inr no_ping ↦ rw no_ping (elim (Bool-cases (payload_equals m.payload (codes "status?"))) [
          | inl status ↦ rw status (omega (arith, length-send_status))
          | inr unknown ↦ rw unknown (omega (arith, length-send_simple_message))
        ])
      ])
    ]

-- A message leads to at most two of them.
pub length-handle_message :
    (s : AppState) (c : Counters) (garbage m : Message) (tx actuators : ℕ)
    → length (handle_message s c garbage (some m) tx actuators).sends ≤ 2
unfolding handle_message
length-handle_message s c garbage m tx actuators = elim (Bool-cases (tx == 0 || actuators == 0)) [
  | inl null ↦ rw null (omega arith)
  | inr there ↦ elim (Bool-cases (enum_value m.type == enum_value cmd)) [
    | inl command ↦ rw (there, command) (length-handle_command _ c garbage m tx actuators)
    | inr other ↦ rw (there, other) (omega (arith, length-send_simple_message))
  ]
]
