-- ===== src/Protocol/Decode/Laws.antt =====
-- firmware/protocol/protocol.c: `protocol_decode_body` against the bodies of docs/PROTOCOL.md.
use tp5_borda_rojas.Base.{
  ℕ, suc, ◌+◌, ◌-◌, ◌≤◌, ◌<◌, true, false, some, [], ◌∷◌, ◌++◌, ◌≡◌, ◌≢◌, ◌↔◌, sym, ap, ◌∙◌, arith,
  Bytes, length, take, length-take, length-append, take-eq_of_le, ◌⊎◌, inl, inr, Option-cases,
}
use native.Mathlib.Nat.{le_refl}
use tp5_borda_rojas.Config.{separator_char, max_body_size}
use tp5_borda_rojas.Protocol.Message.{ProtocolType, invalid, Message, type_to_text, type_from_text}
use tp5_borda_rojas.Protocol.Message.Laws.{
  enum_value_invalid_iff, type_from_text_iff, type_to_text_cells,
}
use tp5_borda_rojas.Protocol.Spec.{IsBody}
use tp5_borda_rojas.Protocol.Decode.{decode_checked, decode_body}

record Decoded (a b c d : ℕ) (rest : Bytes) (n : ℕ) (m : Message) : Type 0 where
  at_least : 4 ≤ n
  at_most : n ≤ max_body_size
  separated : d ≡ separator_char
  type_valid : m.type ≢ invalid
  type_read : type_from_text (some (a ∷ b ∷ c ∷ [])) ≡ m.type
  payload_read : m.payload ≡ take (n - 4) rest
  length_read : m.payload_length ≡ n - 4

decode_checked_cells :
    (a b c d : ℕ) (rest : Bytes) (n : ℕ) (m : Message)
    → (decode_checked (a ∷ b ∷ c ∷ d ∷ rest) n ≡ some m) ↔ Decoded a b c d rest n m
unfolding decode_checked
decode_checked_cells a b c d rest n m =
    let valid = enum_value_invalid_iff (type_from_text (some (a ∷ b ∷ c ∷ []))) in
    (λ h. ground (arith, valid), λ h. ground (arith, valid))

-- The four bytes in front of the payload are a type and the separator.
text_cells :
    (t : ProtocolType) (a b c d : ℕ) (xs ys : Bytes)
    → a ∷ b ∷ c ∷ d ∷ xs ≡ type_to_text t ++ (separator_char ∷ ys)
    → (type_to_text t ≡ a ∷ b ∷ c ∷ []) × (d ≡ separator_char) × (xs ≡ ys)
text_cells t a b c d xs ys e = ground (arith, type_to_text_cells t)

take_four :
    (a b c d : ℕ) (rest : Bytes) (n : ℕ)
    → 4 ≤ n
    → take n (a ∷ b ∷ c ∷ d ∷ rest) ≡ a ∷ b ∷ c ∷ d ∷ take (n - 4) rest
take_four a b c d rest (suc (suc (suc (suc k)))) h =
    let back : suc (suc (suc (suc k))) - 4 ≡ k = omega arith in rw back
take_four a b c d rest _ h = absurd (omega arith)

module _ (a b c d : ℕ) (rest : Bytes) (n : ℕ) (m : Message)
    (enough : n ≤ length (a ∷ b ∷ c ∷ d ∷ rest)) where
  length_rest : 4 ≤ n → length (take (n - 4) rest) ≡ n - 4
  length_rest h = omega (arith, length-take (n - 4) rest)

  Decoded-IsBody : Decoded a b c d rest n m → IsBody (take n (a ∷ b ∷ c ∷ d ∷ rest)) m
  Decoded-IsBody q =
      let letters = (type_from_text_iff a b c m.type q.type_valid).0 q.type_read in
      let counted' = length_rest q.at_least in
      record {
        type_valid = q.type_valid;
        fits = rw q.payload_read (omega (arith, counted', q.at_most));
        counted = q.length_read ∙ (rw q.payload_read (sym counted'));
        text =
            rw (letters, q.payload_read)
              (rw (take_four a b c d rest n q.at_least) (rw q.separated));
      }

  -- A body has at least four bytes.
  IsBody-length : IsBody (take n (a ∷ b ∷ c ∷ d ∷ rest)) m → n ≡ 4 + length m.payload
  IsBody-length q =
      let e = ap length (q.text) in
      omega (
        arith,
        e,
        length-take n (a ∷ b ∷ c ∷ d ∷ rest),
        length-append (type_to_text m.type) (separator_char ∷ m.payload),
        ap length (type_to_text_cells m.type),
      )

  IsBody-Decoded : IsBody (take n (a ∷ b ∷ c ∷ d ∷ rest)) m → Decoded a b c d rest n m
  IsBody-Decoded q =
      let size = IsBody-length q in
      let shape =
        text_cells m.type a b c d (take (n - 4) rest) m.payload
          (sym (take_four a b c d rest n (omega arith)) ∙ q.text) in
      record {
        at_least = omega arith;
        at_most = omega (arith, q.fits);
        separated = shape.1;
        type_valid = q.type_valid;
        type_read = (type_from_text_iff a b c m.type q.type_valid).1 shape.0;
        payload_read = sym shape.2;
        length_read = q.counted ∙ omega (arith, size);
      }

decode_checked_short : (body : Bytes) (n : ℕ) {m : Message} → n < 4 → decode_checked body n ≢ some m
unfolding decode_checked
decode_checked_short body n h e = ground arith

IsBody-short : (body : Bytes) (m : Message) → length body < 4 → ¬ IsBody body m
IsBody-short body m h q = omega (
  arith,
  ap length (q.text),
  length-append (type_to_text m.type) (separator_char ∷ m.payload),
  ap length (type_to_text_cells m.type),
)

-- With enough bytes behind `body`, the checks pass with message `m` exactly when the first
-- `body_length` bytes are a body of `m`.
pub decode_checked_iff :
    (body : Bytes) (n : ℕ) (m : Message)
    → n ≤ length body
    → (decode_checked body n ≡ some m) ↔ IsBody (take n body) m
decode_checked_iff (a ∷ b ∷ c ∷ d ∷ rest) n m h = (
  λ e. Decoded-IsBody a b c d rest n m h ((decode_checked_cells a b c d rest n m).0 e),
  λ q. (decode_checked_cells a b c d rest n m).1 (IsBody-Decoded a b c d rest n m h q),
)
decode_checked_iff body n m h = (
  λ e. absurd (decode_checked_short body n (omega arith) e),
  λ q. absurd (IsBody-short (take n body) m (omega (arith, length-take n body)) q),
)

-- `protocol_decode_body` returns true and stores `m` exactly when the first `body_length` bytes are
-- a body of `m`; otherwise it returns false and leaves the message as it was.
pub decode_body_lem :
    (body : Bytes) (n : ℕ) (old : Message)
    → n ≤ length body
    → ((m : Message) × IsBody (take n body) m
        × (decode_body (some body) n (some old) ≡ (true, some m)))
      ⊎ (((m : Message) → ¬ IsBody (take n body) m)
          × (decode_body (some body) n (some old) ≡ (false, some old)))
unfolding decode_body
decode_body_lem body n old h = elim (Option-cases (decode_checked body n)) [
  | inl refused ↦
      inr (λ m q. absurd (cc (refused, (decode_checked_iff body n m h).1 q)), rw refused)
  | inr (m, read) ↦ inl (m, (decode_checked_iff body n m h).0 read, rw read)
]

-- A body is of one message only.
pub IsBody-unique : (body : Bytes) (m m' : Message) → IsBody body m → IsBody body m' → m ≡ m'
IsBody-unique body m m' p q =
    let whole = take-eq_of_le (length body) body (le_refl (length body)) in
    let first : decode_checked body (length body) ≡ some m =
      (decode_checked_iff body (length body) m (le_refl (length body))).1 (rw whole p) in
    let second : decode_checked body (length body) ≡ some m' =
      (decode_checked_iff body (length body) m' (le_refl (length body))).1 (rw whole q) in
    cc
