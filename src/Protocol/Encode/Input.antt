-- ===== src/Protocol/Encode/Input.antt =====
-- firmware/protocol/protocol.c: the checks of `protocol_encode_frame`, and `checksum_input`.
use tp5_borda_rojas.Base.{
  ℕ, ◌+◌, ◌/◌, ◌^◌, some, ◌∷◌, ◌++◌, ◌≡◌, arith, Bytes, NoNul, length, length-append, take-eq_of_le,
  u8, c_str, strlen, c_str-NoNul, strlen-NoNul, NoNul-of_strlen,
}
use tp5_borda_rojas.Config.{separator_char}
use tp5_borda_rojas.Protocol.Message.{Message, type_to_text}
use tp5_borda_rojas.Protocol.Message.Laws.{is_invalid_iff, type_to_text-NoNul, length-type_to_text}
use tp5_borda_rojas.Protocol.Hex.{nibble_to_hex}
use tp5_borda_rojas.Protocol.Spec.{IsSendable}
use tp5_borda_rojas.Protocol.Encode.{print_body, checksum_input}

abbrev pub body_of : Message → Bytes
body_of m = type_to_text m.type ++ (separator_char ∷ m.payload)

pub length-body_of : (m : Message) → length (body_of m) ≡ 4 + length m.payload
length-body_of m = omega (
  arith,
  length-append (type_to_text m.type) (separator_char ∷ m.payload),
  length-type_to_text m.type,
)

abbrev pub len_hi_of : Message → ℕ
len_hi_of m = nibble_to_hex (u8 (length (body_of m) / 2 ^ 4))

abbrev pub len_lo_of : Message → ℕ
len_lo_of m = nibble_to_hex (u8 (length (body_of m)))

abbrev pub input_of : Message → Bytes
input_of m = len_hi_of m ∷ len_lo_of m ∷ separator_char ∷ body_of m

-- What `%s:%s` prints.
printed_body :
    (m : Message)
    → NoNul m.payload
    → c_str (type_to_text m.type) ++ (separator_char ∷ c_str m.payload) ≡ body_of m
printed_body m h =
    rw (c_str-NoNul (type_to_text m.type) (type_to_text-NoNul m.type), c_str-NoNul m.payload h)

-- `body_length` as the code counts it.
counted_body : (m : Message) → NoNul m.payload → 4 + strlen m.payload ≡ length (body_of m)
counted_body m h = omega (arith, length-body_of m, strlen-NoNul m.payload h)

print_body_lem : (m : Message) → IsSendable m → print_body m ≡ (body_of m, length (body_of m))
unfolding print_body
print_body_lem m h =
    rw (printed_body m h.no_nul)
      (rw (take-eq_of_le 53 (body_of m) (omega (arith, length-body_of m, h.fits))))

pub checksum_input_of :
    (m : Message) → IsSendable m → checksum_input m ≡ some (input_of m, 3 + length (body_of m))
unfolding checksum_input
checksum_input_of m h = rw (print_body_lem m h) (
    ground (
      arith,
      is_invalid_iff m.type,
      strlen-NoNul m.payload h.no_nul,
      length-body_of m,
      h.type_valid,
    ))

-- Nothing else passes the checks.
pub checksum_input-IsSendable :
    (m : Message) (r : Bytes × ℕ)
    → m.payload_length ≡ length m.payload
    → checksum_input m ≡ some r
    → IsSendable m
unfolding checksum_input
checksum_input-IsSendable m r stored h = record {
  type_valid = ground (arith, is_invalid_iff m.type);
  fits = ground arith;
  counted = stored;
  no_nul = NoNul-of_strlen m.payload (ground arith);
}
