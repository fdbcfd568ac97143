-- ===== src/Protocol/Decode.antt =====
-- firmware/protocol/protocol.c: `protocol_decode_body`.
pub mod Laws
use tp5_borda_rojas.Base.{
  ℕ, ◌+◌, ◌-◌, Bool, true, false, not, ◌||◌, Option, none, some, ◌==◌, ltb, guard, ◌>>=◌, ◌>>◌,
  Bytes, cell, take, drop, u8,
}
use tp5_borda_rojas.Config.{type_length, max_body_size, max_payload_length, separator_char}
use tp5_borda_rojas.Protocol.Message.{ProtocolType, invalid, Message, enum_value, type_from_text}

-- The checks in their order, and the message that is stored when all of them pass.
unfoldable pub decode_checked : Bytes → ℕ → Option Message
decode_checked body n = do
  guard (not (ltb n (type_length + 1) || ltb max_body_size n))
  guard (cell body type_length == separator_char)
  let type = type_from_text (some (take type_length body))
  guard (not (enum_value type == enum_value invalid))
  let payload_length = u8 (n - type_length - 1)
  guard (not (ltb max_payload_length payload_length))
  some (record {
    type = type;
    payload_length = payload_length;
    payload = take payload_length (drop (type_length + 1) body);
  })

-- The flag returned, and what `message` points to then: `old` where nothing is stored.
abbrev pub commit : Message → Option Message → Bool × Option Message
commit old none = (false, some old)
commit old (some m) = (true, some m)

unfoldable pub decode_body : Option Bytes → ℕ → Option Message → Bool × Option Message
decode_body none n out = (false, out)
decode_body (some body) n none = (false, none)
decode_body (some body) n (some old) = commit old (decode_checked body n)
