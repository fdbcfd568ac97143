-- ===== src/App/Replies.antt =====
-- firmware/app/app.c: the replies of `app_handle_message`, and its counters.
use tp5_borda_rojas.Base.{
  ℕ, ◌+◌, ◌≤◌, false, ◌||◌, some, List, [], ◌∷◌, ◌≡◌, ◌≢◌, ◌⊎◌, inl, inr, refl, ap, arith, ◌==◌,
  Bool-cases, Bytes, codes, length, u32, IsText, IsText-take,
}
use tp5_borda_rojas.Config.{max_payload_length}
use tp5_borda_rojas.Protocol.Message.{
  ProtocolType, cmd, sts, ack, err, invalid, Message, enum_value,
}
use tp5_borda_rojas.Protocol.Spec.{IsSendable}
use tp5_borda_rojas.Actuators.{ActuatorCommand}
use tp5_borda_rojas.App.{
  AppState, Counters, Send, send_message, send_command, Handled, handle_message, handle_command,
  send_simple_message, build_led_command, send_status, payload_equals, build_status_message,
  empty_command,
}
use tp5_borda_rojas.App.Laws.{
  text_message, message_set_text, text_message-IsSendable, status_payload, status_text-IsText,
  build_status_message_lem,
}

-- The messages sent, with their queues, and the commands, in their order.
abbrev pub messages_of : List Send → List (ℕ × Message)
messages_of [] = []
messages_of (send_message q m ∷ es) = (q, m) ∷ messages_of es
messages_of (send_command q c ∷ es) = messages_of es

abbrev pub commands_of : List Send → List (ℕ × ActuatorCommand)
commands_of [] = []
commands_of (send_message q m ∷ es) = commands_of es
commands_of (send_command q c ∷ es) = (q, c) ∷ commands_of es

pub send_simple_message_text :
    (garbage : Message) (tx : ℕ) (t : ProtocolType) (payload : Bytes)
    → t ≢ invalid
    → IsText payload
    → length payload ≤ max_payload_length
    → send_simple_message garbage tx t payload ≡ send_message tx (text_message t payload) ∷ []
unfolding send_simple_message
send_simple_message_text garbage tx t payload ne h n =
    rw (message_set_text garbage t payload ne h n)

-- One reply in the transmit queue, which can be sent, and an error counted exactly when it is an ERR.
pub record Answered (tx : ℕ) (s : AppState) (h : Handled) : Type 0 where
  pub reply : Message
  pub only : messages_of h.sends ≡ (tx, reply) ∷ []
  pub sendable : IsSendable reply
  pub text : IsText reply.payload
  pub counted :
      ((reply.type ≡ err) × (h.state.error_count ≡ u32 (s.error_count + 1)))
      ⊎ ((reply.type ≢ err) × (h.state.error_count ≡ s.error_count))
  pub received : h.state.rx_count ≡ u32 (s.rx_count + 1)

-- The counters of `s` with one more message, and with one more error if the reply is an ERR.
abbrev Counted : AppState → AppState → ProtocolType → Type 0
Counted s s' t =
    (s'.rx_count ≡ u32 (s.rx_count + 1))
    × (((t ≡ err) × (s'.error_count ≡ u32 (s.error_count + 1)))
        ⊎ ((t ≢ err) × (s'.error_count ≡ s.error_count)))

module _ (s : AppState) (garbage : Message) (tx : ℕ) where
  Answered-by :
      (s' : AppState) (es : List Send) (r : Message)
      → messages_of es ≡ (tx, r) ∷ []
      → IsSendable r
      → IsText r.payload
      → Counted s s' r.type
      → Answered tx s (record { state = s'; sends = es })
  Answered-by s' es r only h text k = record {
    reply = r;
    only = only;
    sendable = h;
    text = text;
    counted = k.1;
    received = k.0;
  }

  Answered-text :
      (s' : AppState) (t : ProtocolType) (payload : Bytes)
      → t ≢ invalid
      → IsText payload
      → length payload ≤ max_payload_length
      → Counted s s' t
      → Answered tx s (record { state = s'; sends = send_simple_message garbage tx t payload })
  Answered-text s' t payload ne h n k =
      Answered-by s' _ (text_message t payload)
        (rw (send_simple_message_text garbage tx t payload ne h n))
        (text_message-IsSendable t payload ne h n) h k

  Answered-status :
      (s' : AppState) (c : Counters)
      → Counted s s' sts
      → Answered tx s
          (record { state = s'; sends = send_status tx (build_status_message s' c (some garbage)) })
  Answered-status s' c k =
      let built = build_status_message_lem s' c garbage in
      let text = IsText-take max_payload_length _ (status_text-IsText s' c) in
      Answered-by s' _ (text_message sts (status_payload s' c)) (rw (built.0))
        (text_message-IsSendable sts (status_payload s' c) (ground arith) text built.2) text k

  handle_command-Answered :
      (s' : AppState) (c : Counters) (m : Message) (actuators : ℕ)
      → s'.rx_count ≡ u32 (s.rx_count + 1)
      → s'.error_count ≡ s.error_count
      → Answered tx s (handle_command s' c garbage m tx actuators)
  unfolding handle_command
  handle_command-Answered s' c m actuators rx ae =
      let fine : (t : ProtocolType) → t ≢ err → Counted s s' t = λ t ne. (rx, inr (ne, ae)) in
      let built = build_led_command m.payload empty_command in
      elim (Bool-cases (built.0)) [
        | inl led ↦
            let answer =
              Answered-text s' ack (codes "cmd=ok") (ground arith) (omega arith) (omega arith)
                (fine ack (ground arith)) in
            rw led (
              Answered-by s' _ answer.reply answer.only answer.sendable answer.text
                (answer.received, answer.counted))
        | inr no_led ↦ rw no_led (elim (Bool-cases (payload_equals m.payload (codes "ping"))) [
          | inl ping ↦ rw ping (
              Answered-text s' ack (codes "pong=1") (ground arith) (omega arith) (omega arith)
                (fine ack (ground arith)))
          | inr no_ping ↦
              rw no_ping (elim (Bool-cases (payload_equals m.payload (codes "status?"))) [
                | inl status ↦ rw status (Answered-status s' c (fine sts (ground arith)))
                | inr unknown ↦ rw unknown (
                    Answered-text _ err (codes "code=unknown_cmd") (ground arith) (omega arith)
                      (omega arith) (rx, inl (refl, ap (λ n. u32 (n + 1)) ae)))
              ])
        ])
      ]

-- With queues that are there, every message is answered by exactly one reply, which goes to the transmit
-- queue and can be sent; the message is counted, and an error is counted exactly when the reply is an ERR.
pub handle_message-Answered :
    (s : AppState) (c : Counters) (garbage m : Message) (tx actuators : ℕ)
    → tx ≢ 0
    → actuators ≢ 0
    → Answered tx s (handle_message s c garbage (some m) tx actuators)
unfolding handle_message
handle_message-Answered s c garbage m tx actuators p q =
    let there : (tx == 0 || actuators == 0) ≡ false = ground arith in
    elim (Bool-cases (enum_value m.type == enum_value cmd)) [
      | inl command ↦
          rw (there, command) (handle_command-Answered s garbage tx _ c m actuators refl refl)
      | inr other ↦
          rw (there, other)
            (Answered-text s garbage tx _ err (codes "code=unexpected_type") (ground arith)
              (omega arith) (omega arith) (refl, inl (refl, refl)))
    ]
