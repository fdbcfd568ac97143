-- ===== src/Protocol/Canonical.antt =====
-- firmware/protocol/protocol.c: which of the frames of a message `protocol_encode_frame` writes. A
-- frame may have digits in either case, and then another checksum; the code writes capital letters.
use tp5_borda_rojas.Base.{
  ℕ, suc, ◌-◌, ◌/◌, ◌%◌, ◌^◌, ◌<◌, true, some, [], ◌∷◌, ◌++◌, ◌≡◌, ◌≢◌, ◌↔◌, refl, sym, ap, ◌∙◌,
  arith, ◌==◌, ==_iff, Bytes, NoNul, IsBytes, length, take, drop, All, length-append,
  All-append_left, All-append_right, u8, holds_to, holds_to_lem,
}
use tp5_borda_rojas.Config.{separator_char, end_char, max_frame_size}
use tp5_borda_rojas.Protocol.Message.{Message, type_to_text}
use tp5_borda_rojas.Protocol.Hex.{nibble_to_hex}
use tp5_borda_rojas.Protocol.Hex.Laws.{HexDigit, HexPair, HexDigit-lt}
use tp5_borda_rojas.Protocol.Spec.{IsFrame, IsSendable, render}
use tp5_borda_rojas.Protocol.Encode.{hex_digit, encode_frame}
use tp5_borda_rojas.Protocol.Encode.Input.{body_of, length-body_of, len_hi_of, len_lo_of}
use tp5_borda_rojas.Protocol.Encode.Frame.{checksum_of, frame_of, frame_of-IsFrame, checksum_of-lt}
use tp5_borda_rojas.Protocol.Encode.Laws.{encode_frame_fits}
use tp5_borda_rojas.Protocol.Validate.{validate_frame}
use tp5_borda_rojas.Protocol.RoundTrip.{accepted-IsFrame}

-- No small letter among the two digits behind `@`, and among the two in front of the end.
pub record HasCapitals (f : Bytes) : Type 0 where
  pub len : All (λ c. c < b'a') (take 2 (drop 1 f))
  pub check : All (λ c. c < b'a') (take 2 (drop (length f - 3) f))

drop-behind : (s t : Bytes) (c : ℕ) → drop (suc (length s)) (s ++ (c ∷ t)) ≡ t
drop-behind [] t c = refl
drop-behind (a ∷ s) t c = drop-behind s t c

end_of_render :
    (h l : ℕ) (body : Bytes) (c d : ℕ)
    → drop (length (render h l body c d) - 3) (render h l body c d) ≡ c ∷ d ∷ end_char ∷ []
end_of_render h l body c d =
    let n : length (render h l body c d) - 3 ≡ suc (suc (suc (suc (suc (length body))))) =
      omega (arith, length-append body (separator_char ∷ c ∷ d ∷ end_char ∷ [])) in
    rw n (drop-behind body (c ∷ d ∷ end_char ∷ []) separator_char)

HasCapitals-render :
    (h l : ℕ) (body : Bytes) (c d : ℕ)
    → HasCapitals (render h l body c d) ↔ ((h < b'a') × (l < b'a') × (c < b'a') × (d < b'a'))
HasCapitals-render h l body c d = (
  λ k.
      let check = rw (end_of_render h l body c d) at (k.check) in
      (k.len.0, k.len.1.0, check.0, check.1.0),
  λ k. record { len = (k.0, (k.1, tt)); check = rw (end_of_render h l body c d) (k.2, (k.3, tt)) },
)

nibble_table : holds_to (λ x. nibble_to_hex x == hex_digit (x % 16)) 256 ≡ true
unfolding holds_to nibble_to_hex
nibble_table = refl

nibble_to_hex_lem : (x : ℕ) → x < 256 → nibble_to_hex x ≡ hex_digit (x % 16)
nibble_to_hex_lem x h =
    (==_iff _ _).0 (holds_to_lem (λ y. nibble_to_hex y == hex_digit (y % 16)) 256 nibble_table x h)

hex_digit-lt : (v : ℕ) → v < 16 → hex_digit v < b'a'
hex_digit-lt v h = ground arith

-- A digit that is no small letter is the one that is printed.
HexDigit-hex_digit : (c v : ℕ) → HexDigit c v → c < b'a' → c ≡ hex_digit v
HexDigit-hex_digit c v h small = ground arith

HexPair-hex_digit :
    (c d n : ℕ)
    → HexPair c d n
    → (c < b'a') × (d < b'a')
    → (c ≡ hex_digit (n / 16)) × (d ≡ hex_digit (n % 16))
HexPair-hex_digit c d n h small =
    let low = HexDigit-lt d h.lo h.lo_digit in
    let hi : n / 16 ≡ h.hi = omega (arith, h.value, low) in
    let lo : n % 16 ≡ h.lo = omega (arith, h.value, low) in
    (
      rw hi (HexDigit-hex_digit c h.hi h.hi_digit small.0),
      rw lo (HexDigit-hex_digit d h.lo h.lo_digit small.1),
    )

-- The digits of `LL` as they are printed.
len_of :
    (m : Message)
    → length m.payload < 200
    → (len_hi_of m ≡ hex_digit (length (body_of m) / 16))
      × (len_lo_of m ≡ hex_digit (length (body_of m) % 16))
len_of m h =
    let n = length (body_of m) in
    let small : length (body_of m) < 256 = omega (arith, length-body_of m) in
    let hi : u8 (length (body_of m) / 2 ^ 4) % 16 ≡ length (body_of m) / 16 = omega arith in
    let lo : u8 (length (body_of m)) % 16 ≡ length (body_of m) % 16 = omega arith in
    (
      nibble_to_hex_lem (u8 (length (body_of m) / 2 ^ 4)) (omega arith) ∙ ap hex_digit hi,
      nibble_to_hex_lem (u8 (length (body_of m))) (omega arith) ∙ ap hex_digit lo,
    )

-- A frame of a message without small letters is the one that is sent.
IsFrame-frame_of : (f : Bytes) (m : Message) → IsFrame f m → HasCapitals f → frame_of m ≡ f
unfolding frame_of checksum_of
IsFrame-frame_of f m q capitals =
    let (hi_small, lo_small, check_hi_small, check_lo_small) =
      (HasCapitals-render q.len_hi q.len_lo q.body q.check_hi q.check_lo).0
        (rw q.text at capitals) in
    let len_printed = len_of m (omega (arith, q.is_body.fits)) in
    let same : q.body ≡ body_of m = q.is_body.text in
    let len_read =
      HexPair-hex_digit q.len_hi q.len_lo (length (body_of m)) (rw same at (q.len))
        (hi_small, lo_small) in
    let hi : q.len_hi ≡ len_hi_of m = len_read.0 ∙ sym len_printed.0 in
    let lo : q.len_lo ≡ len_lo_of m = len_read.1 ∙ sym len_printed.1 in
    let (check_hi, check_lo) =
      HexPair-hex_digit q.check_hi q.check_lo (checksum_of m) (rw (hi, lo, same) at (q.check))
        (check_hi_small, check_lo_small) in
    sym (q.text ∙ cc (hi, lo, same, check_hi, check_lo))

frame_of-HasCapitals : (m : Message) → IsSendable m → IsBytes m.payload → HasCapitals (frame_of m)
unfolding frame_of
frame_of-HasCapitals m h b =
    let (hi, lo) = len_of m (omega (arith, h.fits)) in
    let small = checksum_of-lt m h b in
    (HasCapitals-render (len_hi_of m) (len_lo_of m) (body_of m) (hex_digit (checksum_of m / 16))
        (hex_digit (checksum_of m % 16))).1
      (
        rw hi (hex_digit-lt _ (omega (arith, length-body_of m, h.fits))),
        rw lo (hex_digit-lt _ (omega arith)),
        hex_digit-lt _ (omega (arith, small)),
        hex_digit-lt _ (omega arith),
      )

-- For a message that can be sent, of bytes, and the buffer of 64 bytes: `protocol_encode_frame` writes
-- `f` exactly where `f` is the frame of the message that has no small letter among its digits.
pub encode_frame_iff :
    (m : Message) (f buffer : Bytes) (len : ℕ)
    → IsSendable m
    → IsBytes m.payload
    → (encode_frame (some m) (some buffer) max_frame_size (some len)
        ≡ record { ok = true; frame = some f; frame_length = some (length f) })
      ↔ (IsFrame f m × HasCapitals f)
encode_frame_iff m f buffer len h b =
    let sent = (encode_frame_fits m buffer len h).0 in
    (
      λ e.
          let same : frame_of m ≡ f = cc in
          (rw same at (frame_of-IsFrame m h b), rw same at (frame_of-HasCapitals m h b)),
      λ (q, capitals). rw (IsFrame-frame_of f m q capitals) at sent,
    )

-- The message of a frame without `0` can be sent.
IsFrame-IsSendable : (f : Bytes) (m : Message) → NoNul f → IsFrame f m → IsSendable m
IsFrame-IsSendable f m whole q =
    let k = q.is_body in
    let text : NoNul (render q.len_hi q.len_lo q.body q.check_hi q.check_lo) = rw q.text at whole in
    let body : NoNul q.body = All-append_left (λ c. c ≢ 0) q.body _ text.1.1.1.1 in
    record {
      type_valid = k.type_valid;
      fits = k.fits;
      counted = k.counted;
      no_nul = (All-append_right (λ c. c ≢ 0) (type_to_text m.type) _ (rw k.text at body)).1;
    }

-- What `protocol_validate_frame` accepts as a message, without `0` and with no small letter among its
-- digits, `protocol_encode_frame` writes again for that message, byte for byte.
pub encode-validate :
    (f : Bytes) (m old : Message) (buffer : Bytes) (len : ℕ)
    → NoNul f
    → HasCapitals f
    → validate_frame (some f) (some old) ≡ (true, some m)
    → encode_frame (some m) (some buffer) max_frame_size (some len)
      ≡ record { ok = true; frame = some f; frame_length = some (length f) }
encode-validate f m old buffer len whole capitals accepted =
    let frame = accepted-IsFrame f m old whole accepted in
    rw (IsFrame-frame_of f m frame capitals) at
      (encode_frame_fits m buffer len (IsFrame-IsSendable f m whole frame)).0
