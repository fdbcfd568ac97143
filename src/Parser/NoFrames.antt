-- ===== src/Parser/NoFrames.antt =====
-- firmware/protocol/parser.c: bytes that no frame begins with, state by state.
use tp5_borda_rojas.Base.{
  ℕ, ◌+◌, ◌<◌, true, [], ◌∷◌, ◌++◌, append_assoc, ◌≡◌, ◌≢◌, ◌⊎◌, ap, arith, Bytes, length,
  is_negative,
}
use tp5_borda_rojas.Config.{start_char, separator_char, max_body_size}
use tp5_borda_rojas.Protocol.Message.{Message}
use tp5_borda_rojas.Protocol.Hex.{hex_char_to_nibble}
use tp5_borda_rojas.Protocol.Hex.Laws.{HexPair, HexPair-unique, join-HexPair}
use tp5_borda_rojas.Protocol.Validate.Laws.{IsBody-bounds}
use tp5_borda_rojas.Parser.{Parser}
use tp5_borda_rojas.Parser.Ending.{IsEnding, IsFrame-IsEnding}
use tp5_borda_rojas.Parser.Reading.{HasLength, lead, whole_body, NoFrame}

pub NoFrame-len_hi :
    (byte : ℕ) → is_negative (hex_char_to_nibble byte) ≡ true → NoFrame (start_char ∷ byte ∷ [])
NoFrame-len_hi byte h rest m q =
    let same : byte ≡ q.len_hi = cc (q.text) in
    cc (h, ap (λ c. is_negative (hex_char_to_nibble c)) same, (join-HexPair _ _ _ q.len).0)

pub NoFrame-len_lo :
    (hi byte : ℕ)
    → is_negative (hex_char_to_nibble byte) ≡ true
    → NoFrame (start_char ∷ hi ∷ byte ∷ [])
NoFrame-len_lo hi byte h rest m q =
    let same : byte ≡ q.len_lo = cc (q.text) in
    cc (h, ap (λ c. is_negative (hex_char_to_nibble c)) same, (join-HexPair _ _ _ q.len).1)

pub NoFrame-range :
    (hi lo n : ℕ)
    → HexPair hi lo n
    → (n < 4) ⊎ (max_body_size < n)
    → NoFrame (start_char ∷ hi ∷ lo ∷ [])
NoFrame-range hi lo n h out rest m q =
    let same_hi : hi ≡ q.len_hi = cc (q.text) in
    let same_lo : lo ≡ q.len_lo = cc (q.text) in
    let count =
      HexPair-unique q.len_hi q.len_lo n (length q.body) (rw (same_hi, same_lo) at h) q.len in
    omega (arith, out, count, IsBody-bounds q.body m q.is_body)

pub NoFrame-separator :
    (hi lo byte : ℕ) → byte ≢ separator_char → NoFrame (start_char ∷ hi ∷ lo ∷ byte ∷ [])
NoFrame-separator hi lo byte h rest m q = h (cc (q.text))

-- Behind the body, all depends on the ending.
pub NoFrame-ending :
    (p : Parser) (xs : Bytes) (byte : ℕ)
    → length p.body ≡ max_body_size + 1
    → HasLength p
    → ((rest : Bytes) (m : Message) → ¬ IsEnding p (xs ++ (byte ∷ rest)) m)
    → NoFrame (lead p (whole_body p ++ xs) ++ (byte ∷ []))
NoFrame-ending p xs byte size h never rest m q =
    never rest m
      (IsFrame-IsEnding p size h (xs ++ (byte ∷ rest)) m (rw (append_assoc, append_assoc) at q))
