-- ===== src/Parser/Steps.antt =====
-- firmware/protocol/parser.c: one byte in each state of the header, and behind the body.
use tp5_borda_rojas.Base.{
  ℕ, ◌+◌, some, [], ◌∷◌, ◌++◌, append-nil, ◌≡◌, inl, inr, refl, ◌∙◌, arith, ◌==◌, Bool-cases, Bytes,
  length, length-set, is_negative,
}
use tp5_borda_rojas.Config.{start_char, separator_char, max_body_size}
use tp5_borda_rojas.Protocol.Message.{Message}
use tp5_borda_rojas.Protocol.Hex.{hex_char_to_nibble}
use tp5_borda_rojas.Parser.{
  wait_start, read_len_hi, expect_len_separator, expect_check_separator, Parser, parser_error,
  on_wait_start, on_read_len_hi, on_expect_len_separator, on_expect_check_separator,
}
use tp5_borda_rojas.Parser.Reading.{
  Reading, IsReading, restart, NoFrame, Advance, more, skipped, lost,
}
use tp5_borda_rojas.Parser.NoFrames.{NoFrame-len_hi, NoFrame-separator, NoFrame-ending}

module _ (p : Parser) (byte : ℕ) (old : Message) (size : length p.body ≡ max_body_size + 1) where
  -- After an error the parser waits for a frame, or has kept the `@` that begins one.
  pub parser_error-IsReading : IsReading (parser_error p byte (some old)).parser (restart byte)
  unfolding parser_error
  parser_error-IsReading = elim (Bool-cases (byte == start_char)) [
    | inl yes' ↦ rw yes' (record { size = length-set p.body 0 0 ∙ size; reading = refl })
    | inr no' ↦ rw no' (record { size = length-set p.body 0 0 ∙ size; reading = refl })
  ]

module _ (p : Parser) (seen : Bytes) (byte : ℕ) (old : Message)
    (size : length p.body ≡ max_body_size + 1) where
  -- An error, once the bytes read are known to begin no frame.
  pub lose :
      (q : Parser)
      → length q.body ≡ max_body_size + 1
      → NoFrame (seen ++ (byte ∷ []))
      → Advance seen byte old (parser_error q byte (some old))
  lose q size' never =
      lost (unfold parser_error in refl) (unfold parser_error in refl) never
        (parser_error-IsReading q byte old size')

  pub wait_start-Advance :
      p.state ≡ wait_start
      → Reading wait_start p seen
      → Advance seen byte old (on_wait_start p byte (some old))
  unfolding on_wait_start
  wait_start-Advance st s = elim (Bool-cases (byte == start_char)) [
    | inl hit ↦
        let here : byte ≡ start_char = ground arith in
        rw hit (more refl refl (record { size = size; reading = rw (s, here) }))
    | inr miss ↦
        rw miss (skipped refl refl s (ground arith) (record { size = size; reading = rw st refl }))
  ]

  pub read_len_hi-Advance :
      Reading read_len_hi p seen → Advance seen byte old (on_read_len_hi p byte (some old))
  unfolding on_read_len_hi
  read_len_hi-Advance s = elim (Bool-cases (is_negative (hex_char_to_nibble byte))) [
    | inl bad ↦ rw bad (lose p size (rw s (NoFrame-len_hi byte bad)))
    | inr good ↦ rw good (more refl refl (record { size = size; reading = (good, rw s) }))
  ]

  pub expect_len_separator-Advance :
      Reading expect_len_separator p seen
      → Advance seen byte old (on_expect_len_separator p byte (some old))
  unfolding on_expect_len_separator
  expect_len_separator-Advance (h, s) = elim (Bool-cases (byte == separator_char)) [
    | inl hit ↦
        let here : byte ≡ separator_char = ground arith in
        rw hit (
          more refl refl (record {
            size = size;
            reading = (
              record { digits = h.digits; at_least = h.at_least; at_most = h.at_most },
              omega (arith, h.at_least),
              rw (s, here),
            );
          }))
    | inr miss ↦ rw miss (lose p size (rw s (NoFrame-separator _ _ byte (ground arith))))
  ]

  pub expect_check_separator-Advance :
      Reading expect_check_separator p seen
      → Advance seen byte old (on_expect_check_separator p byte (some old))
  unfolding on_expect_check_separator
  expect_check_separator-Advance (h, s) = elim (Bool-cases (byte == separator_char)) [
    | inl hit ↦
        let here : byte ≡ separator_char = ground arith in
        rw hit (
          more refl refl (record {
            size = size;
            reading = (
              record { digits = h.digits; at_least = h.at_least; at_most = h.at_most },
              rw (s, here),
            );
          }))
    | inr miss ↦ rw miss (
        lose p size (
          rw s (
            rw append-nil at (NoFrame-ending p [] byte size h (λ rest m q. absurd (cc (q.text)))))))
  ]
