-- ===== src/App/Led.antt =====
-- firmware/app/app.c and actuators.c: a message's way to the LED, through the queue of commands.
use tp5_borda_rojas.Base.{
  ℕ, suc, Bool, true, false, not, ◌||◌, Option, none, some, List, [], ◌∷◌, ◌≡◌, ◌≢◌, inl, inr, refl,
  arith, ◌==◌, ==_iff, Bool-cases, if◌then◌else◌, Bytes, codes, c_str, bytes_eq, strcmp_zero,
  strcmp_zero_text,
}
use tp5_borda_rojas.Protocol.Message.{ProtocolType, cmd, ack, err, Message, enum_value}
use tp5_borda_rojas.Actuators.{ActuatorCommand, Gpio, apply_command}
use tp5_borda_rojas.Actuators.Laws.{lit, led_after, lit-apply_command}
use tp5_borda_rojas.App.{
  AppState, Counters, handle_message, handle_command, send_simple_message, build_led_command,
  payload_equals, build_status_message, empty_command, send_status, send_if_set, fill,
}
use tp5_borda_rojas.App.Replies.{commands_of}

-- What the protocol says of a message: only the three CMD payloads move the LED.
abbrev pub led_spec : Message → Bool → Bool
led_spec m lit' =
    if not (enum_value m.type == enum_value cmd)
    then lit'
    else if bytes_eq (c_str m.payload) (codes "led=on")
    then true
    else if bytes_eq (c_str m.payload) (codes "led=off")
    then false
    else if bytes_eq (c_str m.payload) (codes "led=toggle")
    then not lit'
    else lit'

-- The three texts that do.
abbrev pub is_led_text : Bytes → Bool
is_led_text text =
    bytes_eq text (codes "led=on")
    || (bytes_eq text (codes "led=off") || bytes_eq text (codes "led=toggle"))

-- The messages that do, and how many there are.
abbrev pub moves : Message → Bool
moves m = if enum_value m.type == enum_value cmd then is_led_text (c_str m.payload) else false

abbrev pub led_count : List Message → ℕ
led_count [] = 0
led_count (m ∷ ms) = let rest = led_count ms in if moves m then suc rest else rest

module _ (gpio : Gpio) where
  open gpio use {Pin}

  -- `task_actuators` on commands and the queues that they were sent to: it receives those in its
  -- own queue, in their order.
  abbrev pub run_commands : ℕ → List (ℕ × ActuatorCommand) → Pin → Pin
  run_commands queue [] pin = pin
  run_commands queue ((q, c) ∷ cs) pin =
      run_commands queue cs (if q == queue then apply_command gpio (some c) pin else pin)

  lit_filled :
      (action : Bytes) (pin : Pin)
      → lit gpio (apply_command gpio (some (fill empty_command (codes "led") action)) pin)
        ≡ led_after
            (c_str (fill empty_command (codes "led") action).target)
            (c_str (fill empty_command (codes "led") action).action)
            (lit gpio pin)
  lit_filled action pin = lit-apply_command gpio (fill empty_command (codes "led") action) pin

  lit_on :
      (pin : Pin)
      → lit gpio (apply_command gpio (some (fill empty_command (codes "led") (codes "on"))) pin)
        ≡ true
  unfolding c_str bytes_eq
  lit_on pin = lit_filled (codes "on") pin

  lit_off :
      (pin : Pin)
      → lit gpio (apply_command gpio (some (fill empty_command (codes "led") (codes "off"))) pin)
        ≡ false
  unfolding c_str bytes_eq
  lit_off pin = lit_filled (codes "off") pin

  lit_toggle :
      (pin : Pin)
      → lit gpio (apply_command gpio (some (fill empty_command (codes "led") (codes "toggle"))) pin)
        ≡ not (lit gpio pin)
  unfolding c_str bytes_eq
  lit_toggle pin = lit_filled (codes "toggle") pin

  -- Replies carry no command.
  commands_of_simple :
      (garbage : Message) (tx : ℕ) (r : Bool × Option Message) → commands_of (send_if_set tx r) ≡ []
  commands_of_simple garbage tx (true, some m) = refl
  commands_of_simple garbage tx (true, none) = refl
  commands_of_simple garbage tx (false, o) = refl

  no_commands :
      (garbage : Message) (tx : ℕ) (t : ProtocolType) (payload : Bytes)
      → commands_of (send_simple_message garbage tx t payload) ≡ []
  unfolding send_simple_message
  no_commands garbage tx t payload = commands_of_simple garbage tx _

  no_commands_status : (tx : ℕ) (o : Option Message) → commands_of (send_status tx o) ≡ []
  no_commands_status tx none = refl
  no_commands_status tx (some m) = refl

  -- What `build_led_command` makes of a payload, and what that command then does.
  abbrev led_payload : Bytes → Bool → Bool
  led_payload text lit' =
      if bytes_eq text (codes "led=on")
      then true
      else if bytes_eq text (codes "led=off")
      then false
      else if bytes_eq text (codes "led=toggle")
      then not lit'
      else lit'

  lit_built :
      (payload : Bytes) (pin : Pin)
      → lit gpio (
          if (build_led_command payload empty_command).0
          then apply_command gpio (some (build_led_command payload empty_command).1) pin
          else pin)
        ≡ led_payload (c_str payload) (lit gpio pin)
  unfolding build_led_command
  lit_built payload pin =
      rw
        (
          ← strcmp_zero_text payload (codes "led=on") (omega arith),
          ← strcmp_zero_text payload (codes "led=off") (omega arith),
          ← strcmp_zero_text payload (codes "led=toggle") (omega arith),
        )
        (elim (Bool-cases (strcmp_zero payload (codes "led=on"))) [
          | inl on ↦ rw on (lit_on pin)
          | inr no_on ↦ rw no_on (elim (Bool-cases (strcmp_zero payload (codes "led=off"))) [
            | inl off ↦ rw off (lit_off pin)
            | inr no_off ↦ rw no_off (elim (Bool-cases (strcmp_zero payload (codes "led=toggle"))) [
              | inl toggle ↦ rw toggle (lit_toggle pin)
              | inr no_toggle ↦ rw no_toggle
            ])
          ])
        ])

  -- Whether `build_led_command` knows the payload.
  built_lem :
      (payload : Bytes) → (build_led_command payload empty_command).0 ≡ is_led_text (c_str payload)
  unfolding build_led_command
  built_lem payload =
      rw
        (
          ← strcmp_zero_text payload (codes "led=on") (omega arith),
          ← strcmp_zero_text payload (codes "led=off") (omega arith),
          ← strcmp_zero_text payload (codes "led=toggle") (omega arith),
        )
        (elim (Bool-cases (strcmp_zero payload (codes "led=on"))) [
          | inl on ↦ rw on
          | inr no_on ↦ rw no_on (elim (Bool-cases (strcmp_zero payload (codes "led=off"))) [
            | inl off ↦ rw off
            | inr no_off ↦ rw no_off (elim (Bool-cases (strcmp_zero payload (codes "led=toggle"))) [
              | inl toggle ↦ rw toggle
              | inr no_toggle ↦ rw no_toggle
            ])
          ])
        ])

  -- The commands of a CMD message are the one that was built, if any.
  commands_handled :
      (s : AppState) (c : Counters) (garbage m : Message) (tx actuators : ℕ)
      → commands_of (handle_command s c garbage m tx actuators).sends ≡ (
          if (build_led_command m.payload empty_command).0
          then (actuators, (build_led_command m.payload empty_command).1) ∷ []
          else [])
  unfolding handle_command
  commands_handled s c garbage m tx actuators =
      elim (Bool-cases ((build_led_command m.payload empty_command).0)) [
        | inl led ↦ rw (led, no_commands garbage tx ack (codes "cmd=ok"))
        | inr other ↦ rw other (elim (Bool-cases (payload_equals m.payload (codes "ping"))) [
          | inl ping ↦ rw (ping, no_commands garbage tx ack (codes "pong=1"))
          | inr no_ping ↦
              rw no_ping (elim (Bool-cases (payload_equals m.payload (codes "status?"))) [
                | inl status ↦
                    rw (status, no_commands_status tx (build_status_message s c (some garbage)))
                | inr unknown ↦ rw (unknown, no_commands garbage tx err (codes "code=unknown_cmd"))
              ])
        ])
      ]

  run_handled :
      (s : AppState) (c : Counters) (garbage m : Message) (tx actuators : ℕ) (pin : Pin)
      → run_commands actuators (commands_of (handle_command s c garbage m tx actuators).sends) pin
        ≡ (if (build_led_command m.payload empty_command).0
            then apply_command gpio (some (build_led_command m.payload empty_command).1) pin
            else pin)
  run_handled s c garbage m tx actuators pin =
      let own : (actuators == actuators) ≡ true = (==_iff _ _).1 refl in
      rw (commands_handled s c garbage m tx actuators)
        (elim (Bool-cases ((build_led_command m.payload empty_command).0)) [
          | inl led ↦ rw (led, own)
          | inr other ↦ rw other
        ])

  -- A message leads to one command where it moves the LED, and to none otherwise.
  pub commands-handle_message :
      (s : AppState) (c : Counters) (garbage m : Message) (tx actuators : ℕ)
      → tx ≢ 0
      → actuators ≢ 0
      → commands_of (handle_message s c garbage (some m) tx actuators).sends
        ≡ (if moves m then (actuators, (build_led_command m.payload empty_command).1) ∷ [] else [])
  unfolding handle_message
  commands-handle_message s c garbage m tx actuators p q =
      let there : (tx == 0 || actuators == 0) ≡ false = ground arith in
      elim (Bool-cases (enum_value m.type == enum_value cmd)) [
        | inl command ↦
            rw (there, command, commands_handled _ c garbage m tx actuators, built_lem m.payload)
        | inr other ↦ rw (there, other, no_commands garbage tx err (codes "code=unexpected_type"))
      ]

  -- With queues that are there, a message moves the LED as its text says, and only then: a CMD with
  -- payload `led=on` lights it, `led=off` puts it out, `led=toggle` changes it, and any other
  -- message leaves it as it is. This is the effect of the commands that the handler sends to the
  -- queue of the actuators, each applied by them; what it sends to another queue has no effect.
  pub lit-handle_message :
      (s : AppState) (c : Counters) (garbage m : Message) (tx actuators : ℕ) (pin : Pin)
      → tx ≢ 0
      → actuators ≢ 0
      → lit gpio (
          run_commands actuators
            (commands_of (handle_message s c garbage (some m) tx actuators).sends)
            pin)
        ≡ led_spec m (lit gpio pin)
  unfolding handle_message
  lit-handle_message s c garbage m tx actuators pin p q =
      let there : (tx == 0 || actuators == 0) ≡ false = ground arith in
      elim (Bool-cases (enum_value m.type == enum_value cmd)) [
        | inl command ↦
            rw (there, command, run_handled _ c garbage m tx actuators pin)
              (lit_built m.payload pin)
        | inr other ↦ rw (there, other, no_commands garbage tx err (codes "code=unexpected_type"))
      ]
