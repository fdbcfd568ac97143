-- ===== src/Protocol/RoundTrip.antt =====
-- firmware/protocol/protocol.c: `protocol_encode_frame` followed by `protocol_validate_frame`.
use tp5_borda_rojas.Base.{
  ℕ, true, some, [], ◌∷◌, ◌≡◌, refl, sym, ap, ◌∙◌, Bytes, NoNul, IsBytes, length, take, drop,
  take-append, inl, inr,
}
use tp5_borda_rojas.Config.{separator_char, end_char, max_frame_size}
use tp5_borda_rojas.Protocol.Message.{Message}
use tp5_borda_rojas.Protocol.Spec.{IsFrame, IsSendable, render}
use tp5_borda_rojas.Protocol.Hex.Laws.{HexPair-unique}
use tp5_borda_rojas.Protocol.Decode.Laws.{IsBody-unique}
use tp5_borda_rojas.Protocol.Encode.{encode_frame}
use tp5_borda_rojas.Protocol.Encode.Frame.{frame_of, frame_of-IsFrame, frame_of-NoNul}
use tp5_borda_rojas.Protocol.Encode.Laws.{encode_frame_fits}
use tp5_borda_rojas.Protocol.Validate.{validate_frame}
use tp5_borda_rojas.Protocol.Validate.Laws.{validate_frame_lem}

take-inner :
    (h l : ℕ) (body : Bytes) (c d n : ℕ)
    → length body ≡ n
    → take n (drop 4 (render h l body c d)) ≡ body
take-inner h l body c d n e = rw (← e) (take-append body (separator_char ∷ c ∷ d ∷ end_char ∷ []))

-- `LL` says where the body of a frame ends, so a frame has one body.
IsFrame-body : (f : Bytes) (m m' : Message) (p : IsFrame f m) (q : IsFrame f m') → p.body ≡ q.body
IsFrame-body f m m' p q =
    let same = sym p.text ∙ q.text in
    let hi : p.len_hi ≡ q.len_hi = cc in
    let lo : p.len_lo ≡ q.len_lo = cc in
    let n : length q.body ≡ length p.body =
      HexPair-unique q.len_hi q.len_lo (length q.body) (length p.body) q.len
        (rw (hi, lo) at p.len) in
    sym (take-inner p.len_hi p.len_lo p.body p.check_hi p.check_lo (length p.body) refl)
    ∙ ap (λ g. take (length p.body) (drop 4 g)) same
    ∙ take-inner q.len_hi q.len_lo q.body q.check_hi q.check_lo (length p.body) n

-- No bytes are a frame of two messages.
pub IsFrame-unique : (f : Bytes) (m m' : Message) → IsFrame f m → IsFrame f m' → m ≡ m'
IsFrame-unique f m m' p q =
    IsBody-unique q.body m m' (rw (IsFrame-body f m m' p q) at p.is_body) q.is_body

-- What `protocol_validate_frame` accepts is a frame of the message that it stores.
pub accepted-IsFrame :
    (f : Bytes) (m old : Message)
    → NoNul f
    → validate_frame (some f) (some old) ≡ (true, some m)
    → IsFrame f m
accepted-IsFrame f m old whole accepted = elim (validate_frame_lem f old whole) [
  | inl (m', q, read) ↦ let same : m' ≡ m = cc in rw same at q
  | inr (refused, e) ↦ absurd (cc)
]

-- What `task_uart_tx` encodes for a message, `protocol_validate_frame` reads back as that message.
pub validate-encode :
    (m old : Message) (buffer : Bytes) (len : ℕ)
    → IsSendable m
    → IsBytes m.payload
    → (f : Bytes) × (encode_frame (some m) (some buffer) max_frame_size (some len)
        ≡ record { ok = true; frame = some f; frame_length = some (length f) })
      × (validate_frame (some f) (some old) ≡ (true, some m))
validate-encode m old buffer len h b =
    let sent = (encode_frame_fits m buffer len h).0 in
    let is_frame = frame_of-IsFrame m h b in
    (
      frame_of m,
      sent,
      elim (validate_frame_lem (frame_of m) old (frame_of-NoNul m h b)) [
        | inl (m', q, read) ↦
            read ∙ ap (λ k. (true, some k)) (IsFrame-unique (frame_of m) m' m q is_frame)
        | inr (refused, e) ↦ absurd (refused m is_frame)
      ],
    )
