-- ===== src/Parser/Ending.antt =====
-- firmware/protocol/parser.c: the end of a frame whose length is known, and the parser's checksum.
use tp5_borda_rojas.Base.{
  ℕ, zero, suc, ◌+◌, ◌≤◌, [], ◌∷◌, ◌++◌, append_assoc, ◌≡◌, refl, ◌∙◌, arith, ◌==◌, Bytes, length,
  take, length-take, length-append, append-eq_split, cell, get_or-append, bit_xor,
}
use tp5_borda_rojas.Config.{separator_char, end_char, max_body_size}
use tp5_borda_rojas.Protocol.Message.{Message}
use tp5_borda_rojas.Protocol.Hex.{hex_char_to_nibble, join_nibbles}
use tp5_borda_rojas.Protocol.Hex.Laws.{HexPair, HexPair-unique}
use tp5_borda_rojas.Protocol.Checksum.Laws.{xor_all}
use tp5_borda_rojas.Protocol.Spec.{IsBody, IsFrame}
use tp5_borda_rojas.Parser.{Parser, xor_body, parser_hex_byte, parser_checksum_matches}
use tp5_borda_rojas.Parser.Reading.{HasLength, lead, whole_body}

-- What stands behind `@LL:TTT:PAYLOAD` in a frame.
pub record IsEnding (p : Parser) (ys : Bytes) (m : Message) : Type 0 where
  pub check_hi : ℕ
  pub check_lo : ℕ
  pub text : ys ≡ separator_char ∷ check_hi ∷ check_lo ∷ end_char ∷ []
  pub check :
      HexPair check_hi check_lo
        (xor_all 0 (p.length_field.hi ∷ p.length_field.lo ∷ separator_char ∷ whole_body p))
  pub is_body : IsBody (whole_body p) m

pub length-whole_body :
    (p : Parser)
    → length p.body ≡ max_body_size + 1
    → HasLength p
    → length (whole_body p) ≡ p.expected_body_length
length-whole_body p size h = omega (arith, length-take p.expected_body_length p.body, h.at_most)

module _ (p : Parser) (size : length p.body ≡ max_body_size + 1) (h : HasLength p) where
  pub IsFrame-IsEnding :
      (ys : Bytes) (m : Message) → IsFrame (lead p (whole_body p ++ ys)) m → IsEnding p ys m
  IsFrame-IsEnding ys m q =
      let hi : p.length_field.hi ≡ q.len_hi = cc (q.text) in
      let lo : p.length_field.lo ≡ q.len_lo = cc (q.text) in
      let inner : whole_body p ++ ys
          ≡ q.body ++ (separator_char ∷ q.check_hi ∷ q.check_lo ∷ end_char ∷ []) =
        cc (q.text) in
      let same : p.expected_body_length ≡ length q.body =
        HexPair-unique q.len_hi q.len_lo p.expected_body_length (length q.body)
          (rw (hi, lo) at h.digits) q.len in
      let parts =
        append-eq_split (whole_body p) q.body ys _ (length-whole_body p size h ∙ same) inner in
      record {
        check_hi = q.check_hi;
        check_lo = q.check_lo;
        text = parts.1;
        check = rw (hi, lo, parts.0) q.check;
        is_body = rw parts.0 q.is_body;
      }

  pub IsEnding-IsFrame :
      (ys : Bytes) (m : Message) → IsEnding p ys m → IsFrame (lead p (whole_body p ++ ys)) m
  IsEnding-IsFrame ys m q = record {
    len_hi = p.length_field.hi;
    len_lo = p.length_field.lo;
    body = whole_body p;
    check_hi = q.check_hi;
    check_lo = q.check_lo;
    text = rw q.text;
    len = rw (length-whole_body p size h) h.digits;
    check = q.check;
    is_body = q.is_body;
  }

xor_body-append :
    (left acc : ℕ) (pre rest : Bytes)
    → left ≤ length rest
    → xor_body acc (pre ++ rest) (length pre) left ≡ xor_all acc (take left rest)
unfolding xor_body
xor_body-append zero acc pre rest h = refl
xor_body-append (suc left) acc pre [] h = absurd (omega arith)
xor_body-append (suc left) acc pre (r ∷ rs) h =
    let here : cell (pre ++ (r ∷ rs)) (length pre) ≡ r =
      let z : length pre ≡ length pre + 0 = omega arith in rw z (get_or-append pre (r ∷ rs) 0 0) in
    let next : length pre + 1 ≡ length (pre ++ (r ∷ [])) =
      omega (arith, length-append pre (r ∷ [])) in
    rw (here, next, ← append_assoc pre (r ∷ []) rs)
      (xor_body-append left (bit_xor acc r) (pre ++ (r ∷ [])) rs (omega arith))

-- The comparison of the checksums, on the bytes that were read.
pub parser_checksum_matches_lem :
    (p : Parser)
    → length p.body ≡ max_body_size + 1
    → HasLength p
    → parser_checksum_matches p ≡ (
        xor_all 0 (p.length_field.hi ∷ p.length_field.lo ∷ separator_char ∷ whole_body p)
        == join_nibbles
            (hex_char_to_nibble p.checksum_field.hi)
            (hex_char_to_nibble p.checksum_field.lo))
unfolding parser_checksum_matches parser_hex_byte
parser_checksum_matches_lem p size h =
    rw (xor_body-append p.expected_body_length _ [] p.body (omega (arith, h.at_most)))
