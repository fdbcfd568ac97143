-- ===== src/Parser/Stream/Resync.antt =====
-- firmware/protocol/parser.c: noise, errors and the frames behind them.
use tp5_borda_rojas.Base.{
  ℕ, true, false, some, [], ◌∷◌, ◌++◌, ◌≡◌, ◌≢◌, refl, arith, ◌==◌, ==_iff, Option, Bool-cases, inl,
  inr, Bytes, All,
}
use tp5_borda_rojas.Config.{carriage_return, start_char}
use tp5_borda_rojas.Protocol.Message.{Message}
use tp5_borda_rojas.Protocol.Spec.{IsFrame}
use tp5_borda_rojas.Parser.{
  ParserState, wait_start, read_len_hi, read_len_lo, expect_len_separator, read_body,
  expect_check_separator, read_check_hi, read_check_lo, expect_end, error, Parser, Consumed,
  consume, progress,
}
use tp5_borda_rojas.Parser.Reading.{
  IsReading, Reading, restart, NoFrame, Advance, more, skipped, delivered, lost,
}
use tp5_borda_rojas.Parser.Consume.{consume-Advance, result_carriage_return}
use tp5_borda_rojas.Parser.Stream.{feed, without_cr}
use tp5_borda_rojas.Parser.Stream.Laws.{NoCr, Receives, receive_rest, feed-without_cr}

-- A parser that has kept nothing waits for the start character.
pub waiting : (st : ParserState) (p : Parser) → Reading st p [] → st ≡ wait_start
waiting wait_start p s = refl
waiting read_len_hi p s = absurd (cc)
waiting read_len_lo p (d, s) = absurd (cc)
waiting expect_len_separator p (h, s) = absurd (cc)
waiting read_body p (h, b, s) = absurd (cc)
waiting expect_check_separator p (h, s) = absurd (cc)
waiting read_check_hi p (h, s) = absurd (cc)
waiting read_check_lo p (h, d, s) = absurd (cc)
waiting expect_end p (h, d, e, s) = absurd (cc)

consume_noise :
    (p : Parser) (b : ℕ) (out : Option Message)
    → p.state ≡ wait_start
    → b ≢ start_char
    → consume p b out ≡ progress p out
unfolding consume
consume_noise p b out st ne =
    let other : (b == start_char) ≡ false = ground arith in
    elim (Bool-cases (b == carriage_return)) [ inl cr ↦ rw cr | inr no_cr ↦ rw (no_cr, st, other) ]

abbrev pub Noise : Bytes → Type 0
Noise = All (λ c. c ≢ start_char)

pub feed-Noise :
    (noise bs : Bytes) (p : Parser) (old : Message)
    → p.state ≡ wait_start
    → Noise noise
    → feed p old (noise ++ bs) ≡ feed p old bs
unfolding feed
feed-Noise [] bs p old st n = refl
feed-Noise (c ∷ noise) bs p old st (ne, n) =
    rw (consume_noise p c (some old) st ne) (feed-Noise noise bs p old st n)

pub without_cr-NoCr : (bs : Bytes) → NoCr (without_cr bs)
unfolding without_cr
without_cr-NoCr [] = tt
without_cr-NoCr (b ∷ bs) = ground (arith, without_cr-NoCr bs)

-- A parser that waits for a frame gets through any noise without a start character, and then
-- receives exactly one message from a frame, with hexadecimal digits of either case, whatever
-- carriage returns stand in the frame's bytes.
pub feed-Receives :
    (noise bs : Bytes) (p : Parser) (old m : Message)
    → IsReading p []
    → Noise noise
    → IsFrame (without_cr bs) m
    → Receives (feed p old (noise ++ bs)) m
feed-Receives noise bs p old m r n q =
    rw (feed-Noise noise bs p old (waiting p.state p r.reading) n, feed-without_cr p old bs)
      (receive_rest (without_cr bs) p [] old m r (without_cr-NoCr bs) q)

-- What an error says and leaves.
record Lost (seen : Bytes) (b : ℕ) (old : Message) (c : Consumed) : Type 0 where
  justified : NoFrame (seen ++ (b ∷ []))
  untouched : c.message ≡ some old
  kept : IsReading c.parser (restart b)

module _ (p : Parser) (seen : Bytes) (b : ℕ) (old : Message) (r : IsReading p seen)
    (bad : (consume p b (some old)).result ≡ error) where
  error_is_Lost :
      Advance seen b old (consume p b (some old)) → Lost seen b old (consume p b (some old))
  error_is_Lost (more e f k) = absurd (cc)
  error_is_Lost (skipped e f s ne k) = absurd (cc)
  error_is_Lost (delivered m e f q k) = absurd (cc)
  error_is_Lost (lost e f never k) = record { justified = never; untouched = f; kept = k }

  error-Lost : Lost seen b old (consume p b (some old))
  error-Lost = elim (Bool-cases (b == carriage_return)) [
    | inl cr ↦
        let here : b ≡ carriage_return = (==_iff _ _).0 cr in
        absurd (cc (bad, result_carriage_return p b (some old) here))
    | inr other ↦
        error_is_Lost
          (consume-Advance p seen b old r (λ e. cc (other, (==_iff b carriage_return).1 e)))
  ]

  -- An error is never wrong: where a well-formed parser that has kept `seen` reports one, no frame begins
  -- with those bytes and the byte that broke them, and the message is left as it was.
  pub error-NoFrame : NoFrame (seen ++ (b ∷ [])) × ((consume p b (some old)).message ≡ some old)
  error-NoFrame = (error-Lost.justified, error-Lost.untouched)

  -- After an error at `@`, that byte is the start of the next frame: when bytes follow that are the
  -- rest of a frame once the carriage returns among them are left out, its message is received,
  -- exactly once. Hexadecimal digits may be of either case.
  pub error_at_start-Receives :
      (rest : Bytes) (m : Message)
      → b ≡ start_char
      → IsFrame (b ∷ without_cr rest) m
      → Receives (feed (consume p b (some old)).parser old rest) m
  error_at_start-Receives rest m hit q =
      let test : (b == start_char) ≡ true = (==_iff b start_char).1 hit in
      rw (feed-without_cr (consume p b (some old)).parser old rest) (
        receive_rest (without_cr rest) _ (start_char ∷ []) old m (rw test at error-Lost.kept)
          (without_cr-NoCr rest) (rw hit at q))

  -- After an error at any other byte the next frame is received, exactly once, behind any noise
  -- without a start character, whatever carriage returns stand in the frame's bytes. Hexadecimal
  -- digits may be of either case.
  pub error-Receives :
      (noise bs : Bytes) (m : Message)
      → b ≢ start_char
      → Noise noise
      → IsFrame (without_cr bs) m
      → Receives (feed (consume p b (some old)).parser old (noise ++ bs)) m
  error-Receives noise bs m miss n q =
      let test : (b == start_char) ≡ false = ground arith in
      feed-Receives noise bs _ old m (rw test at error-Lost.kept) n q
