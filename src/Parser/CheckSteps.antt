-- ===== src/Parser/CheckSteps.antt =====
-- firmware/protocol/parser.c: the states of the checksum's digits and of the end character.
use tp5_borda_rojas.Base.{
  ℕ, ◌+◌, true, false, some, [], ◌∷◌, ◌++◌, append_assoc, ◌≡◌, inl, inr, refl, sym, ap, ◌∙◌, arith,
  ◌==◌, ==_iff, get_or, Bool-cases, Bytes, length, length-set, is_negative,
}
use tp5_borda_rojas.Config.{separator_char, end_char, max_body_size}
use tp5_borda_rojas.Protocol.Message.{Message}
use tp5_borda_rojas.Protocol.Hex.{hex_char_to_nibble, join_nibbles}
use tp5_borda_rojas.Protocol.Hex.Laws.{HexPair-join, join-HexPair}
use tp5_borda_rojas.Protocol.Checksum.Laws.{xor_all}
use tp5_borda_rojas.Protocol.Decode.Laws.{decode_body_lem}
use tp5_borda_rojas.Protocol.Spec.{IsFrame, IsBody}
use tp5_borda_rojas.Parser.{
  read_check_hi, read_check_lo, expect_end, Parser, parser_checksum_matches, reset,
  on_read_check_hi, on_read_check_lo, on_expect_end, finish,
}
use tp5_borda_rojas.Parser.Ending.{IsEnding, IsEnding-IsFrame, parser_checksum_matches_lem}
use tp5_borda_rojas.Parser.Reading.{
  HasLength, lead, whole_body, Reading, IsReading, NoFrame, Advance, more, delivered, lost,
}
use tp5_borda_rojas.Parser.NoFrames.{NoFrame-ending}
use tp5_borda_rojas.Parser.Steps.{lose}

-- No ending of a frame has another byte where a digit of the checksum stands.
no-IsEnding_hi :
    (p : Parser) (byte : ℕ)
    → is_negative (hex_char_to_nibble byte) ≡ true
    → (rest : Bytes) (m : Message) → ¬ IsEnding p (separator_char ∷ byte ∷ rest) m
no-IsEnding_hi p byte bad rest m q =
    let same : byte ≡ q.check_hi = cc (q.text) in
    cc (bad, ap (λ c. is_negative (hex_char_to_nibble c)) same, (join-HexPair _ _ _ q.check).0)

no-IsEnding_lo :
    (p : Parser) (hi byte : ℕ)
    → is_negative (hex_char_to_nibble byte) ≡ true
    → (rest : Bytes) (m : Message) → ¬ IsEnding p (separator_char ∷ hi ∷ byte ∷ rest) m
no-IsEnding_lo p hi byte bad rest m q =
    let same : byte ≡ q.check_lo = cc (q.text) in
    cc (bad, ap (λ c. is_negative (hex_char_to_nibble c)) same, (join-HexPair _ _ _ q.check).1)

module _ (p : Parser) (seen : Bytes) (byte : ℕ) (old : Message)
    (size : length p.body ≡ max_body_size + 1) where
  pub read_check_hi-Advance :
      Reading read_check_hi p seen → Advance seen byte old (on_read_check_hi p byte (some old))
  unfolding on_read_check_hi
  read_check_hi-Advance (h, s) = elim (Bool-cases (is_negative (hex_char_to_nibble byte))) [
    | inl bad ↦ rw bad (
        lose p seen byte old size p size
          (rw s (NoFrame-ending p (separator_char ∷ []) byte size h (no-IsEnding_hi p byte bad))))
    | inr good ↦ rw good (
        more refl refl (record {
          size = size;
          reading = (
            record { digits = h.digits; at_least = h.at_least; at_most = h.at_most },
            good,
            rw (s, append_assoc),
          );
        }))
  ]

  pub read_check_lo-Advance :
      Reading read_check_lo p seen → Advance seen byte old (on_read_check_lo p byte (some old))
  unfolding on_read_check_lo
  read_check_lo-Advance (h, hi, s) = elim (Bool-cases (is_negative (hex_char_to_nibble byte))) [
    | inl bad ↦ rw bad (
        lose p seen byte old size p size (
          rw s (
            NoFrame-ending p (separator_char ∷ p.checksum_field.hi ∷ []) byte size h
              (no-IsEnding_lo p p.checksum_field.hi byte bad))))
    | inr good ↦ rw good (
        more refl refl (record {
          size = size;
          reading = (
            record { digits = h.digits; at_least = h.at_least; at_most = h.at_most },
            hi,
            good,
            rw (s, append_assoc),
          );
        }))
  ]

-- What the parser has when the end character comes.
module _ (p : Parser) (seen : Bytes) (old : Message) (size : length p.body ≡ max_body_size + 1)
    (h : HasLength p) (hi : is_negative (hex_char_to_nibble p.checksum_field.hi) ≡ false)
    (lo : is_negative (hex_char_to_nibble p.checksum_field.lo) ≡ false)
    (s : seen
      ≡ lead p
          (whole_body p ++ (separator_char ∷ p.checksum_field.hi ∷ p.checksum_field.lo ∷ []))) where
  abbrev sum : ℕ
  sum = xor_all 0 (p.length_field.hi ∷ p.length_field.lo ∷ separator_char ∷ whole_body p)

  abbrev sent_sum : ℕ
  sent_sum =
      join_nibbles (hex_char_to_nibble p.checksum_field.hi) (hex_char_to_nibble p.checksum_field.lo)

  reset-IsReading : IsReading (reset p) []
  reset-IsReading = record { size = length-set p.body 0 0 ∙ size; reading = refl }

  -- Of an ending with these digits, the checksum is right and the body is one.
  ending_facts :
      (rest : Bytes) (m : Message)
      → IsEnding p
          ((separator_char ∷ p.checksum_field.hi ∷ p.checksum_field.lo ∷ []) ++ (end_char ∷ rest))
          m
      → (sum ≡ sent_sum) × IsBody (whole_body p) m
  ending_facts rest m q =
      let same_hi : p.checksum_field.hi ≡ q.check_hi = cc (q.text) in
      let same_lo : p.checksum_field.lo ≡ q.check_lo = cc (q.text) in
      (rw (same_hi, same_lo) (sym (join-HexPair _ _ _ q.check).2), q.is_body)

  refused :
      ((m : Message) → sum ≡ sent_sum → ¬ IsBody (whole_body p) m)
      → NoFrame (seen ++ (end_char ∷ []))
  refused never = rw s (
      NoFrame-ending p (separator_char ∷ p.checksum_field.hi ∷ p.checksum_field.lo ∷ []) end_char
        size h (λ rest m q. let (a, b) = ending_facts rest m q in never m a b))

  accepted :
      (m : Message) → sum ≡ sent_sum → IsBody (whole_body p) m → IsFrame (seen ++ (end_char ∷ [])) m
  accepted m e b =
      rw (s, append_assoc)
        (IsEnding-IsFrame p size h _ m (record {
          check_hi = p.checksum_field.hi;
          check_lo = p.checksum_field.lo;
          text = refl;
          check = rw e (HexPair-join _ _ hi lo);
          is_body = b;
        }))

  finish-Advance : Advance seen end_char old (finish p (some old))
  unfolding finish
  finish-Advance = elim (Bool-cases (sum == sent_sum)) [
    | inl match ↦
        let e : sum ≡ sent_sum = (==_iff _ _).0 match in
        let passed : parser_checksum_matches p ≡ true =
          parser_checksum_matches_lem p size h ∙ match in
        elim (decode_body_lem p.body p.expected_body_length old (omega (arith, h.at_most))) [
          | inl (m, b, r) ↦ rw (passed, r) (delivered m refl refl (accepted m e b) reset-IsReading)
          | inr (never, r) ↦
              rw (passed, r) (lost refl refl (refused (λ m a b. never m b)) reset-IsReading)
        ]
    | inr differ ↦
        let failed : parser_checksum_matches p ≡ false =
          parser_checksum_matches_lem p size h ∙ differ in
        rw failed
          (lost refl refl (refused (λ m a b. cc (differ, (==_iff _ _).1 a))) reset-IsReading)
  ]

pub expect_end-Advance :
    (p : Parser) (seen : Bytes) (byte : ℕ) (old : Message)
    → length p.body ≡ max_body_size + 1
    → Reading expect_end p seen
    → Advance seen byte old (on_expect_end p byte (some old))
unfolding on_expect_end
expect_end-Advance p seen byte old size (h, hi, lo, s) = elim (Bool-cases (byte == end_char)) [
  | inl hit ↦
      let here : byte ≡ end_char = (==_iff _ _).0 hit in
      rw here (finish-Advance p seen old size h hi lo s)
  | inr miss ↦ rw miss (
      lose p seen byte old size p size (
        rw s (
          NoFrame-ending p (separator_char ∷ p.checksum_field.hi ∷ p.checksum_field.lo ∷ []) byte
            size h
            (λ rest m q. absurd (cc (miss, (==_iff _ _).1 (ap (λ l. get_or l 3 0) (q.text))))))))
]
