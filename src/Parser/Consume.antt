-- ===== src/Parser/Consume.antt =====
-- firmware/protocol/parser.c: `parser_consume_byte` in every state, and `parser_init`.
use tp5_borda_rojas.Base.{
  ℕ, ◌+◌, Option, some, [], ◌≡◌, ◌≢◌, false, refl, ◌∙◌, arith, ◌==◌, Bytes, length, length-set,
}
use tp5_borda_rojas.Config.{carriage_return, max_body_size}
use tp5_borda_rojas.Protocol.Message.{Message}
use tp5_borda_rojas.Parser.{
  ParserState, wait_start, read_len_hi, read_len_lo, expect_len_separator, read_body,
  expect_check_separator, read_check_hi, read_check_lo, expect_end, in_progress, Parser, progress,
  reset, consume, dispatch, parser_init,
}
use tp5_borda_rojas.Parser.Reading.{Reading, IsReading, Advance}
use tp5_borda_rojas.Parser.Steps.{
  wait_start-Advance, read_len_hi-Advance, expect_len_separator-Advance,
  expect_check_separator-Advance,
}
use tp5_borda_rojas.Parser.BodySteps.{read_len_lo-Advance, read_body-Advance}
use tp5_borda_rojas.Parser.CheckSteps.{
  read_check_hi-Advance, read_check_lo-Advance, expect_end-Advance,
}

module _ (p : Parser) (seen : Bytes) (byte : ℕ) (old : Message)
    (size : length p.body ≡ max_body_size + 1) where
  dispatch-Advance :
      (st : ParserState)
      → p.state ≡ st
      → Reading st p seen
      → Advance seen byte old (dispatch st p byte (some old))
  unfolding dispatch
  dispatch-Advance wait_start e r = wait_start-Advance p seen byte old size e r
  dispatch-Advance read_len_hi e r = read_len_hi-Advance p seen byte old size r
  dispatch-Advance read_len_lo e r = read_len_lo-Advance p seen byte old size r
  dispatch-Advance expect_len_separator e r = expect_len_separator-Advance p seen byte old size r
  dispatch-Advance read_body e r = read_body-Advance p seen byte old size e r
  dispatch-Advance expect_check_separator e r =
      expect_check_separator-Advance p seen byte old size r
  dispatch-Advance read_check_hi e r = read_check_hi-Advance p seen byte old size r
  dispatch-Advance read_check_lo e r = read_check_lo-Advance p seen byte old size r
  dispatch-Advance expect_end e r = expect_end-Advance p seen byte old size r

-- On any byte but a carriage return, with a place for the message, a parser that has kept `seen`
-- either keeps the byte too, skips it while it waits for a frame, delivers the message of the frame
-- that is now complete, or reports an error where no frame begins with these bytes; hexadecimal
-- digits of a frame may be of either case. It is well formed again in each case.
pub consume-Advance :
    (p : Parser) (seen : Bytes) (byte : ℕ) (old : Message)
    → IsReading p seen
    → byte ≢ carriage_return
    → Advance seen byte old (consume p byte (some old))
unfolding consume
consume-Advance p seen byte old r ne =
    let other : (byte == carriage_return) ≡ false = ground arith in
    rw other (dispatch-Advance p seen byte old r.size p.state refl r.reading)

-- A carriage return changes nothing in any state.
pub consume-carriage_return :
    (p : Parser) (out : Option Message) → consume p carriage_return out ≡ progress p out
unfolding consume
consume-carriage_return p out = refl

-- `parser_init` makes a well-formed parser of any memory of the right size.
pub parser_init-IsReading :
    (p : Parser)
    → length p.body ≡ max_body_size + 1
    → (q : Parser) × (parser_init (some p) ≡ some q) × IsReading q []
unfolding parser_init
parser_init-IsReading p size =
    (reset p, refl, record { size = length-set p.body 0 0 ∙ size; reading = refl })

pub result_carriage_return :
    (p : Parser) (b : ℕ) (out : Option Message)
    → b ≡ carriage_return
    → (consume p b out).result ≡ in_progress
unfolding consume
result_carriage_return p b out e = rw e
