-- ===== src/Parser/Stream/Garbled.antt =====
-- firmware/protocol/parser.c: a frame of which one byte has changed on the way, in the incremental parser.
use tp5_borda_rojas.Base.{
  ℕ, [], ◌∷◌, ◌++◌, append-nil, append_assoc, ◌≡◌, ◌≢◌, refl, sym, ap, ◌∙◌, arith, List, Bytes, All,
  All-append_right, length, length-append,
}
use tp5_borda_rojas.Config.{start_char, separator_char, end_char, carriage_return}
use tp5_borda_rojas.Protocol.Message.{Message}
use tp5_borda_rojas.Protocol.Spec.{IsFrame}
use tp5_borda_rojas.Protocol.Hex.Laws.{HexPair-unique}
use tp5_borda_rojas.Protocol.OneByte.{IsFrame-one_byte}
use tp5_borda_rojas.Parser.{Parser}
use tp5_borda_rojas.Parser.Reading.{IsReading}
use tp5_borda_rojas.Parser.Incomplete.{length-IsFrame}
use tp5_borda_rojas.Parser.Stream.{Event, received, failed, feed}
use tp5_borda_rojas.Parser.Stream.Segments.{EventFrom, feed-EventFrom}
use tp5_borda_rojas.Parser.Stream.Lined.{
  IsPlainByte, IsPlain, replaced, each, Lined, IsFrame-Lined, Lined-no_start, Lined-NoCr,
}

-- The end character stands only at the end.
only_end :
    (line s t : Bytes) (r : ℕ)
    → All (λ c. c ≢ end_char) line
    → line ++ (end_char ∷ []) ≢ s ++ (end_char ∷ r ∷ t)
only_end [] [] t r h e = cc
only_end [] (c ∷ []) t r h e = cc
only_end [] (c ∷ d ∷ s) t r h e = cc
only_end (l ∷ line) [] t r h e = h.0 (cc)
only_end (l ∷ line) (c ∷ s) t r h e = only_end line s t r h.1 (cc)

-- A new end in front of the old one is where the byte has changed.
early_end :
    (line front back init rest : Bytes) (x y r : ℕ)
    → All (λ c. c ≢ end_char) line
    → front ++ (x ∷ back) ≡ line ++ (end_char ∷ [])
    → front ++ (y ∷ back) ≡ init ++ (end_char ∷ r ∷ rest)
    → front ++ (x ∷ back) ≡ init ++ (x ∷ r ∷ rest)
early_end line [] back [] rest x y r h e e' = cc
early_end line [] back (i ∷ init) rest x y r h e e' =
    let inside : back ≡ init ++ (end_char ∷ r ∷ rest) = cc in
    absurd (only_end line (x ∷ init) rest r h (sym e ∙ ap (λ l. x ∷ l) inside))
early_end line (c ∷ []) back [] rest x y r h e e' =
    absurd (only_end line [] back x h (sym e ∙ cc (e')))
early_end line (c ∷ d ∷ front) back [] rest x y r h e e' =
    absurd (only_end line [] (front ++ (x ∷ back)) d h (sym e ∙ cc (e')))
early_end [] (c ∷ []) back (i ∷ init) rest x y r h e e' = absurd (cc)
early_end [] (c ∷ d ∷ front) back (i ∷ init) rest x y r h e e' = absurd (cc)
early_end (l ∷ line) (c ∷ front) back (i ∷ init) rest x y r h e e' =
    let heads : c ≡ i = cc in
    let later = early_end line front back init rest x y r h.1 (cc) (cc) in cc (heads, later)

-- So a frame that ends there is no longer than the whole.
no_early_end :
    (front back rest : Bytes) (x y : ℕ) (m m' : Message) (h : Bytes)
    → IsFrame (front ++ (x ∷ back)) m
    → Lined (front ++ (x ∷ back))
    → IsFrame h m'
    → front ++ (y ∷ back) ≡ h ++ rest
    → rest ≡ []
no_early_end front back [] x y m m' h q k p e = refl
no_early_end front back (r ∷ rest) x y m m' h q k p e =
    let init =
      start_char
      ∷ p.len_hi
      ∷ p.len_lo
      ∷ separator_char
      ∷ (p.body ++ (separator_char ∷ p.check_hi ∷ p.check_lo ∷ [])) in
    let text : h ≡ init ++ (end_char ∷ []) = p.text ∙ rw append_assoc in
    let same : front ++ (x ∷ back) ≡ init ++ (x ∷ r ∷ rest) =
      early_end (start_char ∷ k.inner) front back init rest x y r
        (omega arith, each IsPlainByte (λ c. c ≢ end_char) k.inner (λ c l. l.1) k.plain) k.text
        (e ∙ rw text (append_assoc init (end_char ∷ []) (r ∷ rest))) in
    let start = sym q.text ∙ same in
    let hi : q.len_hi ≡ p.len_hi = cc (start) in
    let lo : q.len_lo ≡ p.len_lo = cc (start) in
    let count =
      HexPair-unique p.len_hi p.len_lo (length p.body) (length q.body) (p.len)
        (rw (hi, lo) at (q.len)) in
    absurd (
      omega (
        arith,
        count,
        length-IsFrame h m' p,
        length-IsFrame (front ++ (x ∷ back)) m q,
        ap length same,
        ap length text,
        length-append init (x ∷ r ∷ rest),
        length-append init (end_char ∷ []),
      ))

-- No start but the first.
no_other_start :
    (before frame after : Bytes) (m : Message)
    → All (λ c. c ≢ start_char) (before ++ (frame ++ after))
    → ¬ IsFrame frame m
no_other_start before frame after m all q =
    (rw q.text at (All-append_right (λ c. c ≢ start_char) before (frame ++ after) all)).0 refl

from_start :
    (front back before frame after : Bytes) (x y : ℕ) (m : Message)
    → Lined (front ++ (x ∷ back))
    → y ≢ start_char
    → IsFrame frame m
    → front ++ (y ∷ back) ≡ before ++ (frame ++ after)
    → before ≡ []
from_start front back [] frame after x y m k ne p e = refl
from_start [] back (b ∷ before) frame after x y m k ne p e =
    let line : back ≡ k.inner ++ (end_char ∷ []) = let t = k.text in cc in
    let tail' : back ≡ before ++ (frame ++ after) = cc in
    absurd
      (no_other_start before frame after m (rw (← tail', line) (Lined-no_start (x ∷ back) k)) p)
from_start (c ∷ front) back (b ∷ before) frame after x y m k ne p e =
    let line : front ++ (x ∷ back) ≡ k.inner ++ (end_char ∷ []) = let t = k.text in cc in
    let tail' : front ++ (y ∷ back) ≡ before ++ (frame ++ after) = cc in
    let plain = rw (← line) at (Lined-no_start (c ∷ (front ++ (x ∷ back))) k) in
    absurd (
      no_other_start before frame after m
        (rw tail' at (replaced (λ a. a ≢ start_char) front back x y ne plain)) p)

same_message :
    (front back before frame after : Bytes) (x y : ℕ) (m m' : Message)
    → IsFrame (front ++ (x ∷ back)) m
    → Lined (front ++ (x ∷ back))
    → IsFrame frame m'
    → front ++ (y ∷ back) ≡ before ++ (frame ++ after)
    → before ≡ []
    → m' ≡ m
same_message front back before frame after x y m m' q k p e first =
    let begins : front ++ (y ∷ back) ≡ frame ++ after = rw first at e in
    let ends = no_early_end front back after x y m m' frame q k p begins in
    let whole : front ++ (y ∷ back) ≡ frame = rw (ends, append-nil) at begins in
    sym (IsFrame-one_byte front back x y m m' q (rw (← whole) at p))

-- An event that says nothing but the message, or an error.
abbrev pub OnlyOf : Message → Event → Type 0
OnlyOf m (received m') = m' ≡ m
OnlyOf m failed = Unit

module _ (front back : Bytes) (x y : ℕ) (m : Message) (q : IsFrame (front ++ (x ∷ back)) m)
    (plain : IsPlain m.payload) where
  only_of :
      (es : List Event)
      → y ≢ start_char
      → All (EventFrom (front ++ (y ∷ back))) es
      → All (OnlyOf m) es
  only_of [] ne h = tt
  only_of (failed ∷ es) ne (h, hs) = (tt, only_of es ne hs)
  only_of (received m' ∷ es) ne (w, hs) =
      let k = IsFrame-Lined (front ++ (x ∷ back)) m q plain in
      let first = from_start front back w.before w.frame w.after x y m' k ne w.is_frame w.splits in
      (
        same_message front back w.before w.frame w.after x y m m' q k w.is_frame w.splits first,
        only_of es ne hs,
      )

  -- A frame whose payload has no start, no end and no carriage return in it reaches a waiting parser
  -- with one byte changed, whichever, but not into a start character or a carriage return: then the
  -- parser reports no message but that of the frame, however many events there are.
  pub feed-one_byte :
      (p : Parser) (old : Message)
      → IsReading p []
      → y ≢ start_char
      → y ≢ carriage_return
      → All (OnlyOf m) (feed p old (front ++ (y ∷ back))).events
  feed-one_byte p old r ne no_cr =
      let k = IsFrame-Lined (front ++ (x ∷ back)) m q plain in
      only_of (feed p old (front ++ (y ∷ back))).events ne (
        feed-EventFrom (front ++ (y ∷ back)) p [] old r (
          replaced (λ c. c ≢ carriage_return) front back x y no_cr
            (Lined-NoCr (front ++ (x ∷ back)) k)))
