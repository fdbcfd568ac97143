-- ===== src/Tasks/UartTx/Laws.antt =====
-- firmware/app/tasks.c: `task_uart_tx` and a parser at the other end of the line.
use tp5_borda_rojas.Base.{
  ℕ, ◌+◌, ◌-◌, true, ◌&&◌, [], ◌∷◌, ◌++◌, append_assoc, ◌≡◌, ◌≢◌, refl, ap, ◌∙◌, arith, ◌==◌, ltb,
  Bytes, All-append, cell, length, length-append, take-append, get_or-append, IsText,
  IsBytes-of_IsText,
}
use tp5_borda_rojas.Config.{carriage_return, start_char, separator_char, end_char}
use tp5_borda_rojas.Protocol.Message.{Message, type_to_text}
use tp5_borda_rojas.Protocol.Message.Laws.{type_to_text-IsText}
use tp5_borda_rojas.Protocol.Spec.{IsFrame, IsSendable}
use tp5_borda_rojas.Protocol.Hex.Laws.{HexDigit}
use tp5_borda_rojas.Protocol.Encode.Frame.{frame_of, frame_of-IsFrame}
use tp5_borda_rojas.Protocol.Encode.Laws.{encode_frame_fits}
use tp5_borda_rojas.Parser.{Parser}
use tp5_borda_rojas.Parser.Reading.{IsReading}
use tp5_borda_rojas.Parser.Stream.{feed, without_cr}
use tp5_borda_rojas.Parser.Stream.Laws.{NoCr, Receives}
use tp5_borda_rojas.Parser.Stream.Resync.{feed-Receives}
use tp5_borda_rojas.Uart.Laws.{send_bytes-take}
use tp5_borda_rojas.Tasks.UartTx.{send_frame, tx_round}

send_frame_line :
    (front : Bytes)
    → send_frame (front ++ (end_char ∷ [])) (length (front ++ (end_char ∷ [])))
      ≡ front ++ (b'\r' ∷ b'\n' ∷ [])
unfolding send_frame
send_frame_line front =
    let f = front ++ (end_char ∷ []) in
    let size = length-append front (end_char ∷ []) in
    let back : length f - 1 ≡ length front + 0 = omega (arith, size) in
    let n : length f - 1 ≡ length front = omega (arith, size) in
    let last : cell f (length f - 1) ≡ end_char =
      rw back (get_or-append front (end_char ∷ []) 0 0) in
    let test : (ltb 0 (length f) && cell f (length f - 1) == b'\n') ≡ true = ground arith in
    rw test (
      rw
        (
          n,
          send_bytes-take f (length front) (omega (arith, size)),
          take-append front (end_char ∷ []),
        )
        (ap (λ l. front ++ l) (send_bytes-take (b'\r' ∷ b'\n' ∷ []) 2 (omega arith))))

without_cr-append : (xs ys : Bytes) → without_cr (xs ++ ys) ≡ without_cr xs ++ without_cr ys
unfolding without_cr
without_cr-append [] ys = refl
without_cr-append (x ∷ xs) ys = ground (arith, without_cr-append xs ys)

without_cr_self : (xs : Bytes) → NoCr xs → without_cr xs ≡ xs
unfolding without_cr
without_cr_self [] h = refl
without_cr_self (x ∷ xs) (h, hs) = ground (arith, without_cr_self xs hs)

HexDigit-no_cr : (c v : ℕ) → HexDigit c v → c ≢ carriage_return
HexDigit-no_cr c v h = ground arith

NoCr-of_IsText : (s : Bytes) → IsText s → NoCr s
NoCr-of_IsText [] h = tt
NoCr-of_IsText (c ∷ cs) (h, hs) = (h.1, NoCr-of_IsText cs hs)

-- A frame with a text for its payload has no carriage return, and ends in its end character.
frame_front :
    (f : Bytes) (m : Message)
    → IsFrame f m
    → IsText m.payload
    → (front : Bytes) × (f ≡ front ++ (end_char ∷ [])) × NoCr front
frame_front f m q t =
    let no_cr : NoCr q.body = rw q.is_body.text (
      All-append (λ c. c ≢ carriage_return) (type_to_text m.type) (separator_char ∷ m.payload)
        (NoCr-of_IsText (type_to_text m.type) (type_to_text-IsText m.type))
        (omega arith, NoCr-of_IsText m.payload t)) in
    let tail' : NoCr (separator_char ∷ q.check_hi ∷ q.check_lo ∷ []) = (
      omega arith,
      (
        HexDigit-no_cr q.check_hi q.check.hi q.check.hi_digit,
        (HexDigit-no_cr q.check_lo q.check.lo q.check.lo_digit, tt),
      ),
    ) in
    (
      start_char
          ∷ q.len_hi
          ∷ q.len_lo
          ∷ separator_char
          ∷ (q.body ++ (separator_char ∷ q.check_hi ∷ q.check_lo ∷ [])),
      q.text ∙ rw append_assoc,
      (
        omega arith,
        (
          HexDigit-no_cr q.len_hi q.len.hi q.len.hi_digit,
          (
            HexDigit-no_cr q.len_lo q.len.lo q.len.lo_digit,
            (
              omega arith,
              All-append (λ c. c ≢ carriage_return) q.body
                  (separator_char ∷ q.check_hi ∷ q.check_lo ∷ []) no_cr tail',
            ),
          ),
        ),
      ),
    )

-- A round on a message that can be sent puts its frame on the line, with a carriage return in front of the
-- end character.
record Line (m : Message) (bytes : Bytes) : Type 0 where
  front : Bytes
  frame : IsFrame (front ++ (end_char ∷ [])) m
  no_cr : NoCr front
  text : bytes ≡ front ++ (b'\r' ∷ b'\n' ∷ [])

tx_round-Line :
    (m : Message) (old : Bytes) (n : ℕ)
    → IsSendable m
    → IsText m.payload
    → Line m (tx_round m old n)
unfolding tx_round
tx_round-Line m old n h t =
    let q = frame_of-IsFrame m h (IsBytes-of_IsText m.payload t) in
    let (front, text, no_cr) = frame_front (frame_of m) m q t in
    record {
      front = front;
      frame = rw (← text) q;
      no_cr = no_cr;
      text = rw ((encode_frame_fits m old n h).0, text) (send_frame_line front);
    }

-- A message that can be sent and whose payload is text reaches the parser at the other end of the line: of
-- the bytes that a round sends, a parser that waits for a frame makes exactly that message.
pub tx_round-Receives :
    (m previous : Message) (old : Bytes) (n : ℕ) (p : Parser)
    → IsSendable m
    → IsText m.payload
    → IsReading p []
    → Receives (feed p previous (tx_round m old n)) m
tx_round-Receives m previous old n p h t r =
    let line = tx_round-Line m old n h t in
    let seen : without_cr (tx_round m old n) ≡ line.front ++ (end_char ∷ []) =
      ap without_cr line.text
      ∙ without_cr-append line.front (b'\r' ∷ b'\n' ∷ [])
      ∙ rw (without_cr_self line.front line.no_cr) (unfold without_cr in refl) in
    feed-Receives [] (tx_round m old n) p previous m r tt (rw seen line.frame)
