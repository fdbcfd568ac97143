-- ===== src/Protocol/Spec.antt =====
-- docs/PROTOCOL.md: which byte strings are frames, and of which messages, with no reference to how
-- the code reads or writes them. Only the texts of the types are the code's.
use tp5_borda_rojas.Base.{ℕ, ◌≤◌, ◌∷◌, [], ◌++◌, ◌≡◌, ◌≢◌, Bytes, NoNul, length}
use tp5_borda_rojas.Config.{start_char, separator_char, end_char, max_payload_length}
use tp5_borda_rojas.Protocol.Message.{Message, invalid, type_to_text}
use tp5_borda_rojas.Protocol.Hex.Laws.{HexPair}
use tp5_borda_rojas.Protocol.Checksum.Laws.{xor_all}

-- `TTT:PAYLOAD`
pub record IsBody (body : Bytes) (m : Message) : Type 0 where
  pub type_valid : m.type ≢ invalid
  pub fits : length m.payload ≤ max_payload_length
  pub counted : m.payload_length ≡ length m.payload
  pub text : body ≡ type_to_text m.type ++ (separator_char ∷ m.payload)

-- `@LL:TTT:PAYLOAD:CC\n`
abbrev pub render : ℕ → ℕ → Bytes → ℕ → ℕ → Bytes
render len_hi len_lo body check_hi check_lo =
    start_char
    ∷ len_hi
    ∷ len_lo
    ∷ separator_char
    ∷ (body ++ (separator_char ∷ check_hi ∷ check_lo ∷ end_char ∷ []))

pub record IsFrame (frame : Bytes) (m : Message) : Type 0 where
  pub len_hi : ℕ
  pub len_lo : ℕ
  pub body : Bytes
  pub check_hi : ℕ
  pub check_lo : ℕ
  pub text : frame ≡ render len_hi len_lo body check_hi check_lo
  pub len : HexPair len_hi len_lo (length body)
  pub check : HexPair check_hi check_lo (xor_all 0 (len_hi ∷ len_lo ∷ separator_char ∷ body))
  pub is_body : IsBody body m

-- What may be sent: a valid type, and a payload without `0` that fits and is counted right.
pub record IsSendable (m : Message) : Type 0 where
  pub type_valid : m.type ≢ invalid
  pub fits : length m.payload ≤ max_payload_length
  pub counted : m.payload_length ≡ length m.payload
  pub no_nul : NoNul m.payload
