-- ===== src/Protocol/Message/Laws.antt =====
-- firmware/protocol/protocol.c: laws of the types, their texts and `protocol_message_set`.
use tp5_borda_rojas.Base.{
  ℕ, ◌≤◌, ◌<◌, true, false, ◌&&◌, Option, none, some, [], ◌∷◌, ◌≡◌, ◌≢◌, ◌↔◌, ◌⊎◌, refl, sym, ap,
  ◌∙◌, arith, Bytes, NoNul, IsBytes, IsText, length, strlen, c_str, strncmp_zero, cell, ◌==◌,
  if◌then◌else◌, take-eq_of_le, strlen-NoNul, take-strlen, c_str-NoNul',
}
use tp5_borda_rojas.Config.{max_payload_length}
use tp5_borda_rojas.Protocol.Spec.{IsSendable}
use tp5_borda_rojas.Protocol.Message.{
  ProtocolType, cmd, dat, evt, sts, ack, err, invalid, Message, type_to_text, type_from_text,
  enum_value, is_invalid, message_set,
}

pub enum_value_invalid_iff :
    (t : ProtocolType) → ((enum_value t == enum_value invalid) ≡ true) ↔ (t ≡ invalid)
unfolding enum_value
enum_value_invalid_iff t = ground arith

pub is_invalid_iff : (t : ProtocolType) → (is_invalid t ≡ true) ↔ (t ≡ invalid)
unfolding is_invalid
is_invalid_iff t = ground arith

-- The comparison of three bytes with a text of three letters, cell by cell.
strncmp_three :
    (a b c x y z : ℕ)
    → x ≢ 0
    → y ≢ 0
    → z ≢ 0
    → strncmp_zero (a ∷ b ∷ c ∷ []) (x ∷ y ∷ z ∷ []) 3 ≡ (a == x && (b == y && c == z))
unfolding strncmp_zero
strncmp_three a b c x y z p q r = ground arith

type_from_text_ladder :
    (a b c : ℕ)
    → type_from_text (some (a ∷ b ∷ c ∷ [])) ≡ (
        if a == b'C' && (b == b'M' && c == b'D')
        then cmd
        else if a == b'D' && (b == b'A' && c == b'T')
        then dat
        else if a == b'E' && (b == b'V' && c == b'T')
        then evt
        else if a == b'S' && (b == b'T' && c == b'S')
        then sts
        else if a == b'A' && (b == b'C' && c == b'K')
        then ack
        else if a == b'E' && (b == b'R' && c == b'R')
        then err
        else invalid)
type_from_text_ladder a b c =
    rw
      (
        ← strncmp_three a b c b'C' b'M' b'D' (omega arith) (omega arith) (omega arith),
        ← strncmp_three a b c b'D' b'A' b'T' (omega arith) (omega arith) (omega arith),
        ← strncmp_three a b c b'E' b'V' b'T' (omega arith) (omega arith) (omega arith),
        ← strncmp_three a b c b'S' b'T' b'S' (omega arith) (omega arith) (omega arith),
        ← strncmp_three a b c b'A' b'C' b'K' (omega arith) (omega arith) (omega arith),
        ← strncmp_three a b c b'E' b'R' b'R' (omega arith) (omega arith) (omega arith),
      )
      (unfold type_from_text in refl)

-- Three bytes are read as type `t` exactly when they are its text.
pub type_from_text_iff :
    (a b c : ℕ) (t : ProtocolType)
    → t ≢ invalid
    → (type_from_text (some (a ∷ b ∷ c ∷ [])) ≡ t) ↔ (type_to_text t ≡ a ∷ b ∷ c ∷ [])
unfolding type_to_text
type_from_text_iff a b c cmd ne = rw type_from_text_ladder (ground arith)
type_from_text_iff a b c dat ne = rw type_from_text_ladder (ground arith)
type_from_text_iff a b c evt ne = rw type_from_text_ladder (ground arith)
type_from_text_iff a b c sts ne = rw type_from_text_ladder (ground arith)
type_from_text_iff a b c ack ne = rw type_from_text_ladder (ground arith)
type_from_text_iff a b c err ne = rw type_from_text_ladder (ground arith)
type_from_text_iff a b c invalid ne = absurd (ne refl)

pub type_to_text_cells :
    (t : ProtocolType)
    → type_to_text t
      ≡ cell (type_to_text t) 0 ∷ cell (type_to_text t) 1 ∷ cell (type_to_text t) 2 ∷ []
unfolding type_to_text
type_to_text_cells cmd = refl
type_to_text_cells _ = refl

-- A payload without `0` is accepted exactly when the type is valid and it has at most 48 bytes; it
-- is then stored whole with its length, and otherwise the message is left as it was.
pub message_set_lem :
    (old : Message) (t : ProtocolType) (payload : Bytes)
    → NoNul payload
    → ((t ≢ invalid)
        × (length payload ≤ max_payload_length)
        × (message_set (some old) t (some payload) ≡ (
          true,
          some (record { type = t; payload = payload; payload_length = length payload }),
        )))
      ⊎ (((t ≡ invalid) ⊎ (max_payload_length < length payload))
          × (message_set (some old) t (some payload) ≡ (false, some old)))
unfolding message_set
message_set_lem old t payload h =
    ground (arith, is_invalid_iff t, strlen-NoNul payload h, take-eq_of_le (strlen payload) payload)

-- What a successful call has checked and stored.
record Stored (t : ProtocolType) (p : Bytes) (m : Message) : Type 0 where
  valid : t ≢ invalid
  short : length (c_str p) ≤ max_payload_length
  type_is : m.type ≡ t
  payload_is : m.payload ≡ c_str p
  length_is : m.payload_length ≡ length (c_str p)

message_set-Stored :
    (old : Message) (t : ProtocolType) (p : Bytes) {m : Message}
    → message_set (some old) t (some p) ≡ (true, some m)
    → Stored t p m
unfolding message_set strlen
message_set-Stored old t p {m} h = ground (arith, is_invalid_iff t, take-strlen p)

-- Whatever the bytes given, a message that is set can be sent.
pub message_set-IsSendable :
    (out : Option Message) (t : ProtocolType) (payload : Option Bytes) {m : Message}
    → message_set out t payload ≡ (true, some m)
    → IsSendable m
message_set-IsSendable none t p h = absurd (unfold message_set in cc)
message_set-IsSendable (some old) t none h = absurd (unfold message_set in cc)
message_set-IsSendable (some old) t (some p) {m} h =
    let s = message_set-Stored old t p h in
    record {
      type_valid = λ e. s.valid (sym s.type_is ∙ e);
      fits = rw s.payload_is s.short;
      counted = s.length_is ∙ ap length (sym s.payload_is);
      no_nul = rw s.payload_is (c_str-NoNul' p);
    }

pub type_to_text-NoNul : (t : ProtocolType) → NoNul (type_to_text t)
unfolding type_to_text
type_to_text-NoNul cmd = omega arith
type_to_text-NoNul _ = omega arith

pub length-type_to_text : (t : ProtocolType) → length (type_to_text t) ≡ 3
length-type_to_text t = ap length (type_to_text_cells t)

pub type_to_text-IsBytes : (t : ProtocolType) → IsBytes (type_to_text t)
unfolding type_to_text
type_to_text-IsBytes cmd = omega arith
type_to_text-IsBytes _ = omega arith

pub type_to_text-IsText : (t : ProtocolType) → IsText (type_to_text t)
unfolding type_to_text
type_to_text-IsText cmd = omega arith
type_to_text-IsText _ = omega arith
