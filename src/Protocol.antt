-- ===== src/Protocol.antt =====
-- firmware/protocol/protocol.c: messages, their text, the checksum, and whole frames.
pub mod Message
pub mod Hex
pub mod Checksum
pub mod Decode
pub mod Encode
pub mod Validate
pub mod Spec
pub mod RoundTrip
pub mod Canonical
pub mod OneByte
