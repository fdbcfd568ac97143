-- ===== src/Protocol/Encode/Laws.antt =====
-- firmware/protocol/protocol.c: `protocol_encode_frame` against the frames of docs/PROTOCOL.md.
use tp5_borda_rojas.Base.{
  ℕ, ◌+◌, ◌-◌, ◌≤◌, ◌<◌, true, false, Option, none, some, [], ◌∷◌, ◌++◌, ◌≡◌, ◌⊎◌, inl, inr, sym,
  ap, ◌∙◌, arith, Bytes, length, take-eq_of_le, IsBytes, c_str, c_str-NoNul, Option-cases,
  Bool-cases, if◌then◌else◌, ltb,
}
use tp5_borda_rojas.Config.{separator_char, start_char, end_char, max_frame_size}
use tp5_borda_rojas.Protocol.Message.{Message}
use tp5_borda_rojas.Protocol.Checksum.{compute_checksum}
use tp5_borda_rojas.Protocol.Checksum.Laws.{compute_checksum_all}
use tp5_borda_rojas.Protocol.Spec.{IsFrame, IsSendable}
use tp5_borda_rojas.Protocol.Encode.{
  format_02x, checksum_input, Encoded, store, write_frame, encode_frame,
}
use tp5_borda_rojas.Protocol.Encode.Input.{
  body_of, length-body_of, input_of, checksum_input_of, checksum_input-IsSendable,
}
use tp5_borda_rojas.Protocol.Encode.Frame.{
  frame_of, checksum_of, frame_of-IsFrame, length-frame_of, input_of-NoNul,
}

-- What the `snprintf` of the frame prints.
abbrev printed_frame : Bytes → ℕ → Bytes
printed_frame input c =
    start_char ∷ (c_str input ++ (separator_char ∷ (format_02x c ++ (end_char ∷ []))))

write_frame_text :
    (input : Bytes) (n : ℕ) (old : Bytes) (size : ℕ) (len : Option ℕ) (text : Bytes)
    → printed_frame input (compute_checksum (some input) n) ≡ text
    → length text ≡ n + 5
    → write_frame input n old size len ≡ (
        if ltb (n + 5) size
        then record { ok = true; frame = some text; frame_length = store len (n + 5) }
        else record { ok = false; frame = some old; frame_length = len })
unfolding write_frame
write_frame_text input n old size len text e h =
    rw e (ground (arith, take-eq_of_le (size - 1) text))

module _ (m : Message) (h : IsSendable m) where
  printed_frame_of :
      printed_frame (input_of m) (compute_checksum (some (input_of m)) (length (input_of m)))
      ≡ frame_of m
  unfolding frame_of checksum_of
  printed_frame_of =
      rw (compute_checksum_all (input_of m), c_str-NoNul (input_of m) (input_of-NoNul m h))

  -- A message that can be sent is encoded whenever the buffer is longer than its frame.
  pub encode_frame_sendable :
      (old : Bytes) (size : ℕ) (len : Option ℕ)
      → encode_frame (some m) (some old) size len ≡ (
          if ltb (12 + length m.payload) size
          then record {
            ok = true;
            frame = some (frame_of m);
            frame_length = store len (12 + length m.payload);
          }
          else record { ok = false; frame = some old; frame_length = len })
  unfolding encode_frame
  encode_frame_sendable old size len =
      let n : ℕ = 3 + length (body_of m) in
      let e : n ≡ length (input_of m) = omega arith in
      let total : n + 5 ≡ 12 + length m.payload = omega (arith, length-body_of m) in
      rw (checksum_input_of m h, encode_frame)
        (write_frame_text (input_of m) n old size len (frame_of m)
            (ap (λ k. printed_frame (input_of m) (compute_checksum (some (input_of m)) k)) e
              ∙ printed_frame_of)
            (length-frame_of m ∙ sym total)
          ∙ rw total)

-- Nothing is written for a message that cannot be sent.
encode_frame_refused :
    (m : Message) (old : Bytes) (size : ℕ) (len : Option ℕ)
    → checksum_input m ≡ none
    → encode_frame (some m) (some old) size len
      ≡ record { ok = false; frame = some old; frame_length = len }
unfolding encode_frame
encode_frame_refused m old size len e = rw (e, encode_frame)

abbrev pub Success : Message → ℕ → Option ℕ → Encoded → Type 0
Success m size len r =
    IsSendable m
    × (12 + length m.payload < size)
    × IsFrame (frame_of m) m
    × (r ≡ record {
      ok = true;
      frame = some (frame_of m);
      frame_length = store len (length (frame_of m));
    })

abbrev pub Failure : Message → Bytes → ℕ → Option ℕ → Encoded → Type 0
Failure m old size len r =
    ((¬ IsSendable m) ⊎ (size ≤ 12 + length m.payload))
    × (r ≡ record { ok = false; frame = some old; frame_length = len })

-- For a stored message (its length is that of its payload) of bytes: it is encoded exactly when it
-- can be sent and the buffer is longer than 12 bytes and the payload. The buffer then holds a frame
-- of the message, `frame_length` its length; otherwise neither is written.
pub encode_frame_lem :
    (m : Message) (old : Bytes) (size : ℕ) (len : Option ℕ)
    → m.payload_length ≡ length m.payload
    → IsBytes m.payload
    → Success m size len (encode_frame (some m) (some old) size len)
      ⊎ Failure m old size len (encode_frame (some m) (some old) size len)
encode_frame_lem m old size len stored b = elim (Option-cases (checksum_input m)) [
  | inl refused ↦ inr (
    inl (λ h. absurd (cc (refused, checksum_input_of m h))),
    encode_frame_refused m old size len refused,
  )
  | inr (r, passed) ↦
      let h = checksum_input-IsSendable m r stored passed in
      let sent = encode_frame_sendable m h old size len in
      elim (Bool-cases (ltb (12 + length m.payload) size)) [
        | inl fits ↦
            inl (h, ground arith, frame_of-IsFrame m h b, rw length-frame_of (rw fits at sent))
        | inr small ↦ inr (inr (ground arith), rw small at sent)
      ]
]

-- The largest frame still leaves room in the buffer of 64 bytes that `task_uart_tx` passes.
pub encode_frame_fits :
    (m : Message) (old : Bytes) (len : ℕ)
    → IsSendable m
    → (encode_frame (some m) (some old) max_frame_size (some len) ≡ record {
      ok = true;
      frame = some (frame_of m);
      frame_length = some (length (frame_of m));
    })
      × (length (frame_of m) < max_frame_size)
encode_frame_fits m old len h =
    let room : 12 + length m.payload < max_frame_size = omega (arith, h.fits) in
    let test : ltb (12 + length m.payload) max_frame_size ≡ true = ground arith in
    (
      rw length-frame_of (rw test at (encode_frame_sendable m h old max_frame_size (some len))),
      rw length-frame_of room,
    )
