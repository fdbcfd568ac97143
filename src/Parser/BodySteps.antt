-- ===== src/Parser/BodySteps.antt =====
-- firmware/protocol/parser.c: the states that fix the length and read the body.
use native.Mathlib.Nat.{le_refl}
use tp5_borda_rojas.Base.{
  ℕ, suc, ◌+◌, ◌<◌, some, ◌≡◌, inl, inr, refl, ◌∙◌, arith, Bool-cases, Bytes, length, set,
  length-set, is_negative, u8, ltb, leb, ◌||◌, take-set_next, take-set_after,
}
use tp5_borda_rojas.Config.{max_body_size}
use tp5_borda_rojas.Protocol.Message.{Message}
use tp5_borda_rojas.Protocol.Hex.{hex_char_to_nibble, join_nibbles}
use tp5_borda_rojas.Protocol.Hex.Laws.{HexPair, HexPair-join}
use tp5_borda_rojas.Parser.{
  read_len_lo, read_body, Parser, parser_hex_byte, on_read_len_lo, on_read_body,
}
use tp5_borda_rojas.Parser.Reading.{Reading, Advance, more}
use tp5_borda_rojas.Parser.NoFrames.{NoFrame-len_lo, NoFrame-range}
use tp5_borda_rojas.Parser.Steps.{lose}

module _ (p : Parser) (seen : Bytes) (byte : ℕ) (old : Message)
    (size : length p.body ≡ max_body_size + 1) where
  pub read_len_lo-Advance :
      Reading read_len_lo p seen → Advance seen byte old (on_read_len_lo p byte (some old))
  unfolding on_read_len_lo parser_hex_byte
  read_len_lo-Advance (hi, s) = elim (Bool-cases (is_negative (hex_char_to_nibble byte))) [
    | inl bad ↦ rw bad (lose p seen byte old size p size (rw s (NoFrame-len_lo _ byte bad)))
    | inr good ↦
        let n = join_nibbles (hex_char_to_nibble p.length_field.hi) (hex_char_to_nibble byte) in
        let pair : HexPair p.length_field.hi byte n = HexPair-join p.length_field.hi byte hi good in
        elim (Bool-cases (ltb n 4 || ltb max_body_size n)) [
          | inl outside ↦
              rw (good, outside)
                (lose p seen byte old size _ size
                  (rw s (NoFrame-range p.length_field.hi byte n pair (ground arith))))
          | inr inside ↦
              rw (good, inside)
                (more refl refl (record {
                  size = size;
                  reading = (
                    record { digits = pair; at_least = ground arith; at_most = ground arith },
                    rw s,
                  );
                }))
        ]
  ]

  -- The write stays inside the array, and the byte stands behind those read before.
  pub read_body-Advance :
      p.state ≡ read_body
      → Reading read_body p seen
      → Advance seen byte old (on_read_body p byte (some old))
  unfolding on_read_body
  read_body-Advance st (h, below, s) =
      let index : u8 (p.body_index + 1) ≡ suc p.body_index = omega (arith, h.at_most) in
      let inside : p.body_index < length p.body = omega (arith, h.at_most) in
      let written = take-set_next p.body p.body_index byte inside in
      let size' = length-set p.body p.body_index byte ∙ size in
      rw index (elim (Bool-cases (leb p.expected_body_length (suc p.body_index))) [
        | inl full ↦
            let last : p.expected_body_length ≡ suc p.body_index = ground arith in
            rw full (
              more refl refl (record {
                size = length-set _ (suc p.body_index) 0 ∙ size';
                reading = (
                  record { digits = h.digits; at_least = h.at_least; at_most = h.at_most },
                  rw (
                    s,
                    last,
                    take-set_after (set p.body p.body_index byte) (suc p.body_index) 0
                        (suc p.body_index) (le_refl _),
                    written,
                  ),
                );
              }))
        | inr rest ↦ rw rest (
            more refl refl (record {
              size = size';
              reading = rw st (
                record { digits = h.digits; at_least = h.at_least; at_most = h.at_most },
                ground arith,
                rw (s, written),
              );
            }))
      ])
