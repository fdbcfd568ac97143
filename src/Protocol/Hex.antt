-- ===== src/Protocol/Hex.antt =====
-- firmware/protocol/protocol.c: `hex_char_to_nibble` and `nibble_to_hex`; and the byte that two
-- hexadecimal digits stand for, as parser.c and `protocol_validate_frame` put it together.
pub mod Laws
use tp5_borda_rojas.Base.{
  ℕ, ◌+◌, ◌-◌, ◌*◌, ◌^◌, ◌&&◌, leb, if◌then◌else◌, Bytes, codes, cell, ℤ, pos, negsuc, to_u8, u8,
  bit_and, bit_or,
}

-- A `char` is its byte: no byte above 127 passes the tests, whether `char` is signed or not.
unfoldable pub hex_char_to_nibble : ℕ → ℤ
hex_char_to_nibble c =
    if leb b'0' c && leb c b'9'
    then pos (c - b'0')
    else if leb b'A' c && leb c b'F'
    then pos (c - b'A' + 10)
    else if leb b'a' c && leb c b'f'
    then pos (c - b'a' + 10)
    else negsuc 0

abbrev digits : Bytes
digits = codes "0123456789ABCDEF"

unfoldable pub nibble_to_hex : ℕ → ℕ
nibble_to_hex value = cell digits (bit_and value 0x0f)

-- `(uint8_t) (((uint8_t) hi << 4) | (uint8_t) lo)`
unfoldable pub join_nibbles : ℤ → ℤ → ℕ
join_nibbles hi lo = u8 (bit_or (to_u8 hi * 2 ^ 4) (to_u8 lo))
