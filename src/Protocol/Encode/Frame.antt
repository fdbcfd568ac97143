-- ===== src/Protocol/Encode/Frame.antt =====
-- firmware/protocol/protocol.c: the text that `protocol_encode_frame` prints of a message.
use tp5_borda_rojas.Base.{
  ℕ, ◌+◌, ◌/◌, ◌%◌, ◌^◌, ◌<◌, [], ◌∷◌, ◌≡◌, ◌≢◌, refl, arith, Bytes, NoNul, length, length-append,
  u8, IsBytes, All-append, NoNul-append,
}
use tp5_borda_rojas.Config.{separator_char, end_char}
use tp5_borda_rojas.Protocol.Message.{Message, type_to_text}
use tp5_borda_rojas.Protocol.Message.Laws.{type_to_text-NoNul, type_to_text-IsBytes}
use tp5_borda_rojas.Protocol.Hex.Laws.{
  HexDigit, HexPair, HexDigit-lt, nibble_to_hex-HexDigit, join-nibble_to_hex,
}
use tp5_borda_rojas.Protocol.Checksum.Laws.{xor_all, xor_all-lt}
use tp5_borda_rojas.Protocol.Spec.{IsFrame, IsSendable, render}
use tp5_borda_rojas.Protocol.Encode.{hex_digit}
use tp5_borda_rojas.Protocol.Encode.Input.{body_of, length-body_of, len_hi_of, len_lo_of, input_of}

unfoldable pub checksum_of : Message → ℕ
checksum_of m = xor_all 0 (input_of m)

-- The frame that is sent for `m`.
unfoldable pub frame_of : Message → Bytes
frame_of m =
    render (len_hi_of m) (len_lo_of m) (body_of m) (hex_digit (checksum_of m / 16))
      (hex_digit (checksum_of m % 16))

hex_digit-HexDigit : (d : ℕ) → d < 16 → HexDigit (hex_digit d) d
hex_digit-HexDigit d h = ground arith

format_02x-HexPair : (c : ℕ) → c < 256 → HexPair (hex_digit (c / 16)) (hex_digit (c % 16)) c
format_02x-HexPair c h = record {
  hi = c / 16;
  lo = c % 16;
  hi_digit = hex_digit-HexDigit (c / 16) (omega arith);
  lo_digit = hex_digit-HexDigit (c % 16) (omega arith);
  value = omega arith;
}

module _ (m : Message) (h : IsSendable m) where
  body_lt : length (body_of m) < 256
  body_lt = omega (arith, length-body_of m, h.fits)

  body_of-NoNul : NoNul (body_of m)
  body_of-NoNul =
      NoNul-append (type_to_text m.type) (separator_char ∷ m.payload) (type_to_text-NoNul m.type)
        (omega arith, h.no_nul)

  -- The two digits of `LL`, as bytes and not `0`.
  len_digits : (len_hi_of m ≢ 0) × (len_lo_of m ≢ 0) × (len_hi_of m < 256) × (len_lo_of m < 256)
  len_digits = omega (
    arith,
    HexDigit-lt (len_hi_of m) (u8 (length (body_of m) / 2 ^ 4) % 16)
        (nibble_to_hex-HexDigit (u8 (length (body_of m) / 2 ^ 4)) (omega arith)),
    HexDigit-lt (len_lo_of m) (u8 (length (body_of m)) % 16)
        (nibble_to_hex-HexDigit (u8 (length (body_of m))) (omega arith)),
  )

  pub input_of-NoNul : NoNul (input_of m)
  input_of-NoNul = (len_digits.0, (len_digits.1, (omega arith, body_of-NoNul)))

  pub checksum_of-lt : IsBytes m.payload → checksum_of m < 256
  unfolding checksum_of
  checksum_of-lt b = xor_all-lt (input_of m) 0 (omega arith) (
    len_digits.2,
    (
      len_digits.3,
      (
        omega arith,
        All-append (λ c. c < 256) (type_to_text m.type) (separator_char ∷ m.payload)
            (type_to_text-IsBytes m.type) (omega arith, b),
      ),
    ),
  )

  -- What is sent for `m` is a frame of `m`.
  pub frame_of-IsFrame : IsBytes m.payload → IsFrame (frame_of m) m
  unfolding frame_of
  frame_of-IsFrame b = record {
    len_hi = len_hi_of m;
    len_lo = len_lo_of m;
    body = body_of m;
    check_hi = hex_digit (checksum_of m / 16);
    check_lo = hex_digit (checksum_of m % 16);
    text = refl;
    len = (join-nibble_to_hex (length (body_of m)) body_lt).0;
    check =
        unfold checksum_of in
        format_02x-HexPair (xor_all 0 (input_of m)) (unfold checksum_of in checksum_of-lt b);
    is_body = record { type_valid = h.type_valid; fits = h.fits; counted = h.counted; text = refl };
  }

pub length-frame_of : (m : Message) → length (frame_of m) ≡ 12 + length m.payload
unfolding frame_of
length-frame_of m = omega (
  arith,
  length-body_of m,
  length-append (body_of m) (
      separator_char
      ∷ hex_digit (checksum_of m / 16)
      ∷ hex_digit (checksum_of m % 16)
      ∷ end_char
      ∷ []),
)

-- A frame holds no `0`: as a string of C it is as long as it is.
pub frame_of-NoNul : (m : Message) → IsSendable m → IsBytes m.payload → NoNul (frame_of m)
unfolding frame_of
frame_of-NoNul m h b =
    let pair = format_02x-HexPair (checksum_of m) (checksum_of-lt m h b) in
    let inner = input_of-NoNul m h in
    let check_hi = (HexDigit-lt (hex_digit (checksum_of m / 16)) pair.hi pair.hi_digit).1 in
    let check_lo = (HexDigit-lt (hex_digit (checksum_of m % 16)) pair.lo pair.lo_digit).1 in
    let tail' : NoNul (
        separator_char
        ∷ hex_digit (checksum_of m / 16)
        ∷ hex_digit (checksum_of m % 16)
        ∷ end_char
        ∷ []) =
      (omega arith, (check_hi, (check_lo, omega arith))) in
    (
      omega arith,
      (inner.0, (inner.1.0, (omega arith, NoNul-append (body_of m) _ inner.1.1.1 tail'))),
    )
