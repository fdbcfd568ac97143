-- ===== src/Protocol/Message.antt =====
-- firmware/protocol/protocol.h and protocol.c: `protocol_type_t`, `protocol_message_t`,
-- `protocol_type_to_text`, `protocol_type_from_text` and `protocol_message_set`.
-- A payload is the part of `char payload[49]` in front of the terminator that the code writes; what
-- the array holds behind that terminator is never read.
pub mod Laws
use tp5_borda_rojas.Base.{
  ℕ, Bool, true, false, Option, none, some, ◌==◌, ltb, if◌then◌else◌, Bytes, codes, cell, take,
  strlen, strncmp_zero, u8,
}
use tp5_borda_rojas.Config.{type_length, max_payload_length}

pub data ProtocolType : Type 0 where
  cmd dat evt sts ack err invalid : ProtocolType

pub record Message : Type 0 where
  pub type : ProtocolType
  pub payload : Bytes
  pub payload_length : ℕ

unfoldable pub type_to_text : ProtocolType → Bytes
type_to_text cmd = codes "CMD"
type_to_text dat = codes "DAT"
type_to_text evt = codes "EVT"
type_to_text sts = codes "STS"
type_to_text ack = codes "ACK"
type_to_text err = codes "ERR"
type_to_text invalid = codes "INV"

-- The value of the enumerator, which C compares.
unfoldable pub enum_value : ProtocolType → ℕ
enum_value cmd = 0
enum_value dat = 1
enum_value evt = 2
enum_value sts = 3
enum_value ack = 4
enum_value err = 5
enum_value invalid = 6

-- The test `protocol_type_to_text(type)[0] == 'I'`.
unfoldable pub is_invalid : ProtocolType → Bool
unfolding type_to_text
is_invalid t = cell (type_to_text t) 0 == b'I'

type_of_text : Bytes → ProtocolType
type_of_text text =
    if strncmp_zero text (codes "CMD") type_length
    then cmd
    else if strncmp_zero text (codes "DAT") type_length
    then dat
    else if strncmp_zero text (codes "EVT") type_length
    then evt
    else if strncmp_zero text (codes "STS") type_length
    then sts
    else if strncmp_zero text (codes "ACK") type_length
    then ack
    else if strncmp_zero text (codes "ERR") type_length
    then err
    else invalid

-- `none` is a null pointer.
unfoldable pub type_from_text : Option Bytes → ProtocolType
unfolding type_of_text strncmp_zero
type_from_text none = invalid
type_from_text (some text) = type_of_text text

-- Both pointers may be null. The result is the flag returned and what `message` points to then.
unfoldable pub message_set : Option Message → ProtocolType → Option Bytes → Bool × Option Message
unfolding is_invalid
message_set none type payload = (false, none)
message_set (some m) type none = (false, some m)
message_set (some m) type (some payload) =
    if is_invalid type
    then (false, some m)
    else let n = strlen payload in
      if ltb max_payload_length n
      then (false, some m)
      else (true, some (record { type = type; payload_length = u8 n; payload = take n payload }))
