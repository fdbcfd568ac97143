-- ===== src/Parser/Incomplete.antt =====
-- firmware/protocol/parser.c: how long the bytes are that a parser has kept.
use tp5_borda_rojas.Base.{
  ◌+◌, ◌≤◌, [], ◌∷◌, ◌++◌, ◌≡◌, refl, ap, arith, Bytes, length, length-take, length-append, take,
}
use tp5_borda_rojas.Config.{max_body_size, separator_char, end_char}
use tp5_borda_rojas.Protocol.Message.{Message}
use tp5_borda_rojas.Protocol.Hex.Laws.{HexPair-unique}
use tp5_borda_rojas.Protocol.Spec.{IsFrame}
use tp5_borda_rojas.Parser.{
  ParserState, wait_start, read_len_hi, read_len_lo, expect_len_separator, read_body,
  expect_check_separator, read_check_hi, read_check_lo, expect_end, Parser,
}
use tp5_borda_rojas.Parser.Ending.{length-whole_body}
use tp5_borda_rojas.Parser.Reading.{HasLength, lead, whole_body, Reading, IsReading}

pub length-IsFrame : (f : Bytes) (m : Message) (q : IsFrame f m) → length f ≡ length q.body + 8
length-IsFrame f m q = omega (
  arith,
  ap length q.text,
  length-append q.body (separator_char ∷ q.check_hi ∷ q.check_lo ∷ end_char ∷ []),
)

-- Behind `@LL:` a frame has as many bytes as LL says, and four more.
length-lead :
    (p : Parser) (xs : Bytes) (m : Message)
    → HasLength p
    → IsFrame (lead p xs) m
    → length xs ≡ p.expected_body_length + 4
length-lead p xs m h q =
    let hi : p.length_field.hi ≡ q.len_hi = cc (q.text) in
    let lo : p.length_field.lo ≡ q.len_lo = cc (q.text) in
    let count =
      HexPair-unique q.len_hi q.len_lo p.expected_body_length (length q.body)
        (rw (hi, lo) at h.digits) q.len in
    omega (arith, count, length-IsFrame (lead p xs) m q)

module _ (p : Parser) (size : length p.body ≡ max_body_size + 1) (seen : Bytes) where
  -- With its digits, `lead` is as long as this.
  length-Reading : (st : ParserState) → Reading st p seen → length seen ≤ 59
  length-Reading wait_start s = omega (arith, ap length s)
  length-Reading read_len_hi s = omega (arith, ap length s)
  length-Reading read_len_lo (d, s) = omega (arith, ap length s)
  length-Reading expect_len_separator (h, s) = omega (arith, ap length s)
  length-Reading read_body (h, below, s) =
      omega (arith, ap length s, length-take p.body_index p.body, h.at_most)
  length-Reading expect_check_separator (h, s) =
      omega (arith, ap length s, length-whole_body p size h, h.at_most)
  length-Reading read_check_hi (h, s) = omega (
    arith,
    ap length s,
    length-append (whole_body p) (separator_char ∷ []),
    length-whole_body p size h,
    h.at_most,
  )
  length-Reading read_check_lo (h, d, s) = omega (
    arith,
    ap length s,
    length-append (whole_body p) (separator_char ∷ p.checksum_field.hi ∷ []),
    length-whole_body p size h,
    h.at_most,
  )
  length-Reading expect_end (h, d, e, s) = omega (
    arith,
    ap length s,
    length-append (whole_body p) (separator_char ∷ p.checksum_field.hi ∷ p.checksum_field.lo ∷ []),
    length-whole_body p size h,
    h.at_most,
  )

  not_whole : (st : ParserState) (m : Message) → Reading st p seen → ¬ IsFrame seen m
  not_whole wait_start m s q = omega (arith, ap length s, length-IsFrame seen m q)
  not_whole read_len_hi m s q = omega (arith, ap length s, length-IsFrame seen m q)
  not_whole read_len_lo m (d, s) q = omega (arith, ap length s, length-IsFrame seen m q)
  not_whole expect_len_separator m (h, s) q = omega (arith, ap length s, length-IsFrame seen m q)
  not_whole read_body m (h, below, s) q = omega (
    arith,
    length-lead p (take p.body_index p.body) m h (rw s at q),
    length-take p.body_index p.body,
    below,
  )
  not_whole expect_check_separator m (h, s) q =
      omega (arith, length-lead p (whole_body p) m h (rw s at q), length-whole_body p size h)
  not_whole read_check_hi m (h, s) q = omega (
    arith,
    length-lead p (whole_body p ++ (separator_char ∷ [])) m h (rw s at q),
    length-append (whole_body p) (separator_char ∷ []),
    length-whole_body p size h,
  )
  not_whole read_check_lo m (h, d, s) q = omega (
    arith,
    length-lead p (whole_body p ++ (separator_char ∷ p.checksum_field.hi ∷ [])) m h (rw s at q),
    length-append (whole_body p) (separator_char ∷ p.checksum_field.hi ∷ []),
    length-whole_body p size h,
  )
  not_whole expect_end m (h, d, e, s) q =
      let xs = whole_body p ++ (separator_char ∷ p.checksum_field.hi ∷ p.checksum_field.lo ∷ []) in
      omega (
        arith,
        length-lead p xs m h (rw s at q),
        length-append (whole_body p)
            (separator_char ∷ p.checksum_field.hi ∷ p.checksum_field.lo ∷ []),
        length-whole_body p size h,
      )

pub IsReading-length : (p : Parser) (seen : Bytes) → IsReading p seen → length seen ≤ 59
IsReading-length p seen r = length-Reading p r.size seen p.state r.reading

pub not-IsFrame_seen :
    (p : Parser) (seen : Bytes) (m : Message) → IsReading p seen → ¬ IsFrame seen m
not-IsFrame_seen p seen m r = not_whole p r.size seen p.state m r.reading

-- No frame is the beginning of a longer one.
pub IsFrame-prefix :
    (f rest : Bytes) (m m' : Message) → IsFrame f m → IsFrame (f ++ rest) m' → rest ≡ []
IsFrame-prefix f [] m m' p q = refl
IsFrame-prefix f (b ∷ rest) m m' p q =
    let longer = rw p.text at q.text in
    let hi : p.len_hi ≡ q.len_hi = cc (longer) in
    let lo : p.len_lo ≡ q.len_lo = cc (longer) in
    let count =
      HexPair-unique q.len_hi q.len_lo (length p.body) (length q.body) (rw (hi, lo) at p.len)
        q.len in
    absurd (
      omega (
        arith,
        count,
        length-IsFrame f m p,
        length-IsFrame (f ++ (b ∷ rest)) m' q,
        length-append f (b ∷ rest),
      ))
