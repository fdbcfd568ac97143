-- ===== src/App/Laws.antt =====
-- firmware/app/app.c: the messages that the application builds.
use tp5_borda_rojas.Base.{
  ℕ, ◌+◌, ◌^◌, ◌≤◌, ◌<◌, true, some, ◌≡◌, ◌≢◌, ◌↔◌, inl, inr, refl, ap, arith, Bytes, codes,
  decimal, length, take, length-take, length-append, take-eq_of_le, NoNul-of_IsText, IsText,
  IsText-append, IsText-take, decimal-IsText,
}
use tp5_borda_rojas.Config.{max_payload_length}
use tp5_borda_rojas.Protocol.Message.{ProtocolType, dat, sts, invalid, Message, message_set}
use tp5_borda_rojas.Protocol.Message.Laws.{message_set_lem}
use tp5_borda_rojas.Protocol.Spec.{IsSendable}
use tp5_borda_rojas.Sensors.{telemetry_text}
use tp5_borda_rojas.Sensors.Laws.{
  telemetry_text-IsText, length-telemetry_text, build_telemetry_payload_whole,
}
use tp5_borda_rojas.App.{
  AppState, Counters, status_text, build_status_message, build_telemetry_message,
}

-- A message with a payload, counted.
abbrev pub text_message : ProtocolType → Bytes → Message
text_message t payload = record { type = t; payload = payload; payload_length = length payload }

-- A text of at most 48 bytes is stored as it is.
pub message_set_text :
    (old : Message) (t : ProtocolType) (payload : Bytes)
    → t ≢ invalid
    → IsText payload
    → length payload ≤ max_payload_length
    → message_set (some old) t (some payload) ≡ (true, some (text_message t payload))
message_set_text old t payload ne h n =
    elim (message_set_lem old t payload (NoNul-of_IsText payload h)) [
      | inl (a, b, e) ↦ e
      | inr (inl a, e) ↦ absurd (ne a)
      | inr (inr b, e) ↦ absurd (omega arith)
    ]

pub text_message-IsSendable :
    (t : ProtocolType) (payload : Bytes)
    → t ≢ invalid
    → IsText payload
    → length payload ≤ max_payload_length
    → IsSendable (text_message t payload)
text_message-IsSendable t payload ne h n = record {
  type_valid = ne;
  fits = n;
  counted = refl;
  no_nul = NoNul-of_IsText payload h;
}

pub status_text-IsText : (s : AppState) (c : Counters) → IsText (status_text s c)
unfolding status_text
status_text-IsText s c = IsText-append (codes "rx=") _ (omega arith) (
    IsText-append (decimal s.rx_count) _ (decimal-IsText _) (
      IsText-append (codes ",ae=") _ (omega arith) (
        IsText-append (decimal s.error_count) _ (decimal-IsText _) (
          IsText-append (codes ",irq=") _ (omega arith) (
            IsText-append (decimal c.rx_irq_count) _ (decimal-IsText _) (
              IsText-append (codes ",pb=") _ (omega arith) (
                IsText-append (decimal c.parser_byte_count) _ (decimal-IsText _) (
                  IsText-append (codes ",pm=") _ (omega arith) (
                    IsText-append (decimal c.parser_message_count) _ (decimal-IsText _) (
                      IsText-append (codes ",pe=") _ (omega arith) (
                        IsText-append (decimal c.parser_error_count) _ (decimal-IsText _) (
                          IsText-append (codes ",qd=") _ (omega arith)
                            (decimal-IsText c.rx_drop_count)))))))))))))

-- The digits of the seven counters.
abbrev pub status_digits : AppState → Counters → ℕ
status_digits s c =
    length (decimal s.rx_count)
    + length (decimal s.error_count)
    + length (decimal c.rx_irq_count)
    + length (decimal c.parser_byte_count)
    + length (decimal c.parser_message_count)
    + length (decimal c.parser_error_count)
    + length (decimal c.rx_drop_count)

pub length-status_text :
    (s : AppState) (c : Counters) → length (status_text s c) ≡ status_digits s c + 28
unfolding status_text
length-status_text s c = simp (length-append) (omega arith)

-- The payload of a status message.
abbrev pub status_payload : AppState → Counters → Bytes
status_payload s c = take max_payload_length (status_text s c)

-- The status message that is built holds the first 48 bytes of the text. These are the whole text exactly
-- when the seven counters have at most 20 digits between them; otherwise the last counters are cut off,
-- and the message is built and sent all the same.
pub build_status_message_lem :
    (s : AppState) (c : Counters) (old : Message)
    → (build_status_message s c (some old) ≡ some (text_message sts (status_payload s c)))
      × ((status_payload s c ≡ status_text s c) ↔ (status_digits s c ≤ 20))
      × (length (status_payload s c) ≤ max_payload_length)
unfolding build_status_message
build_status_message_lem s c old =
    let text = status_text s c in
    let short : length (take max_payload_length text) ≤ max_payload_length =
      omega (arith, length-take max_payload_length text) in
    (
      ap (λ r. r.1)
          (message_set_text old sts (take 48 text) (ground arith)
            (IsText-take 48 text (status_text-IsText s c)) short),
      (
        λ e. omega (arith, length-status_text s c, ap length e, short),
        λ h. take-eq_of_le 48 text (omega (arith, length-status_text s c)),
      ),
      short,
    )

-- A telemetry message is built for every 32-bit sequence number, with its whole text, and can be sent.
pub build_telemetry_message_lem :
    (garbage : Bytes) (old : Message) (sequence : ℕ)
    → sequence < 2 ^ 32
    → (build_telemetry_message garbage (some old) sequence
        ≡ (true, some (text_message dat (telemetry_text sequence))))
      × IsSendable (text_message dat (telemetry_text sequence))
unfolding build_telemetry_message
build_telemetry_message_lem garbage old sequence h =
    let fits : length (telemetry_text sequence) ≤ 48 =
      omega (arith, length-telemetry_text sequence h) in
    let text = telemetry_text-IsText sequence in
    (
      rw (build_telemetry_payload_whole garbage sequence h)
          (message_set_text old dat (telemetry_text sequence) (ground arith) text fits),
      text_message-IsSendable dat (telemetry_text sequence) (ground arith) text fits,
    )
