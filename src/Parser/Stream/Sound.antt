-- ===== src/Parser/Stream/Sound.antt =====
-- firmware/protocol/parser.c: messages, bounds and answers on an arbitrary stream.
use tp5_borda_rojas.Base.{
  ℕ, ◌+◌, ◌≤◌, ◌<◌, some, [], ◌∷◌, ◌++◌, append-nil, append_assoc, ◌≡◌, ◌≢◌, refl, sym, ap, arith,
  ◌==◌, ==_iff, Bool-cases, inl, inr, Bytes, length, length-append,
}
use tp5_borda_rojas.Config.{carriage_return, start_char, max_body_size}
use tp5_borda_rojas.Protocol.Message.{Message}
use tp5_borda_rojas.Protocol.Spec.{IsFrame}
use tp5_borda_rojas.Parser.{read_body, message_ready, Parser, Consumed, consume}
use tp5_borda_rojas.Parser.Reading.{IsReading, Advance, more, skipped, delivered, lost}
use tp5_borda_rojas.Parser.Consume.{
  consume-Advance, consume-carriage_return, result_carriage_return,
}
use tp5_borda_rojas.Parser.Incomplete.{IsReading-length}
use tp5_borda_rojas.Parser.Stream.{buffer, feed, without_cr}
use tp5_borda_rojas.Parser.Stream.Laws.{NoCr, feed_more, feed_ready, feed_error}

-- The parser has kept an end of the input, all but its carriage returns.
pub record Keeps (p : Parser) (input : Bytes) : Type 0 where
  pub dropped : Bytes
  pub seen : Bytes
  pub splits : input ≡ dropped ++ seen
  pub reads : IsReading p seen

Keeps-Advance :
    (p : Parser) (seen dropped : Bytes) (b : ℕ) (old : Message)
    → Advance seen b old (consume p b (some old))
    → Keeps (consume p b (some old)).parser ((dropped ++ seen) ++ (b ∷ []))
Keeps-Advance p seen dropped b old (more e f r) = record {
  dropped = dropped;
  seen = seen ++ (b ∷ []);
  splits = append_assoc dropped seen _;
  reads = r;
}
Keeps-Advance p seen dropped b old (skipped e f s ne r) = record {
  dropped = (dropped ++ seen) ++ (b ∷ []);
  seen = [];
  splits = sym (append-nil _);
  reads = r;
}
Keeps-Advance p seen dropped b old (delivered m e f q r) = record {
  dropped = (dropped ++ seen) ++ (b ∷ []);
  seen = [];
  splits = sym (append-nil _);
  reads = r;
}
Keeps-Advance p seen dropped b old (lost e f never r) = elim (Bool-cases (b == start_char)) [
  | inl hit ↦ record {
    dropped = dropped ++ seen;
    seen = b ∷ [];
    splits = refl;
    reads = rw (ap (λ c. c ∷ []) ((==_iff _ _).0 hit)) (rw hit at r);
  }
  | inr miss ↦ record {
    dropped = (dropped ++ seen) ++ (b ∷ []);
    seen = [];
    splits = sym (append-nil _);
    reads = rw miss at r;
  }
]

pub feed-Keeps :
    (bs : Bytes) (p : Parser) (input : Bytes) (old : Message)
    → Keeps p input
    → Keeps (feed p old bs).parser (input ++ without_cr bs)
unfolding feed without_cr
feed-Keeps [] p input old k = rw append-nil k
feed-Keeps (b ∷ bs) p input old k = elim (Bool-cases (b == carriage_return)) [
  | inl cr ↦
      let here : b ≡ carriage_return = (==_iff _ _).0 cr in
      rw (here, consume-carriage_return p (some old)) (feed-Keeps bs p input old k)
  | inr other ↦
      let c : Consumed = consume p b (some old) in
      let a =
        consume-Advance p k.seen b old k.reads (λ e. cc (other, (==_iff b carriage_return).1 e)) in
      let next : Keeps c.parser (input ++ (b ∷ [])) =
        rw k.splits (Keeps-Advance p k.seen k.dropped b old a) in
      rw (other, ← append_assoc input (b ∷ []) (without_cr bs))
        (feed-Keeps bs c.parser (input ++ (b ∷ [])) (buffer old c.message) next)
]

-- A parser that waits for a frame, is fed any bytes and then reads a body has room for the next byte
-- and for the terminator behind it: both writes stay inside the 53 cells of the array.
pub feed_bounds :
    (bs : Bytes) (p : Parser) (old : Message)
    → IsReading p []
    → (feed p old bs).parser.state ≡ read_body
    → ((feed p old bs).parser.body_index + 1 < length (feed p old bs).parser.body)
      × (length (feed p old bs).parser.body ≡ max_body_size + 1)
feed_bounds bs p old r st =
    let k = feed-Keeps bs p [] old (record { dropped = []; seen = []; splits = refl; reads = r }) in
    let inside = rw st at k.reads.reading in
    (omega (arith, inside.0.at_most, inside.1, k.reads.size), k.reads.size)

-- The frame that the message of a call came from: the last bytes of the input but for carriage returns.
pub record Source (input : Bytes) (c : Consumed) : Type 0 where
  pub dropped : Bytes
  pub frame : Bytes
  pub message : Message
  pub splits : input ≡ dropped ++ frame
  pub is_frame : IsFrame frame message
  pub stored : c.message ≡ some message

Source-of :
    (p : Parser) (input : Bytes) (b : ℕ) (old : Message) (k : Keeps p input)
    → (consume p b (some old)).result ≡ message_ready
    → Advance k.seen b old (consume p b (some old))
    → Source (input ++ (b ∷ [])) (consume p b (some old))
Source-of p input b old k ready (more e f r) = absurd (cc)
Source-of p input b old k ready (skipped e f s ne r) = absurd (cc)
Source-of p input b old k ready (lost e f never r) = absurd (cc)
Source-of p input b old k ready (delivered m e f q r) = record {
  dropped = k.dropped;
  frame = k.seen ++ (b ∷ []);
  message = m;
  splits = rw k.splits (append_assoc k.dropped k.seen (b ∷ []));
  is_frame = q;
  stored = f;
}

-- A message is reported only at the end of a frame of it: the bytes received up to then, without the
-- carriage returns, end in that frame. This holds of any input, whatever noise it has.
pub message_ready-Source :
    (bs : Bytes) (b : ℕ) (p : Parser) (old : Message)
    → IsReading p []
    → (consume (feed p old bs).parser b (some (feed p old bs).message)).result ≡ message_ready
    → Source
        (without_cr bs ++ (b ∷ []))
        (consume (feed p old bs).parser b (some (feed p old bs).message))
message_ready-Source bs b p old r ready =
    let q = (feed p old bs).parser in
    let m = (feed p old bs).message in
    let k = feed-Keeps bs p [] old (record { dropped = []; seen = []; splits = refl; reads = r }) in
    elim (Bool-cases (b == carriage_return)) [
      | inl cr ↦
          let here : b ≡ carriage_return = (==_iff _ _).0 cr in
          absurd (cc (ready, result_carriage_return q b (some m) here))
      | inr other ↦
          Source-of q (without_cr bs) b m k ready
            (consume-Advance q k.seen b m k.reads (λ e. cc (other, (==_iff b carriage_return).1 e)))
    ]

answer_step :
    (p : Parser) (seen : Bytes) (b : ℕ) (bs : Bytes) (old : Message)
    → seen ≢ []
    → ((q : Parser) → IsReading q (seen ++ (b ∷ [])) → (feed q old bs).events ≢ [])
    → Advance seen b old (consume p b (some old))
    → (feed p old (b ∷ bs)).events ≢ []
answer_step p seen b bs old ne later (more e f r) = rw (feed_more p old b bs e f) (later _ r)
answer_step p seen b bs old ne later (skipped e f s other r) = absurd (ne s)
answer_step p seen b bs old ne later (delivered m e f q r) =
    rw (feed_ready p old m b bs e f) (λ none'. absurd (cc))
answer_step p seen b bs old ne later (lost e f never r) =
    rw (feed_error p old b bs e f) (λ none'. absurd (cc))

-- Once a frame has begun, an answer comes within 60 bytes of its start: whatever those bytes are, but
-- for carriage returns, the parser reports a message or an error.
pub feed_answers :
    (bs : Bytes) (p : Parser) (seen : Bytes) (old : Message)
    → IsReading p seen
    → seen ≢ []
    → NoCr bs
    → 60 ≤ length seen + length bs
    → (feed p old bs).events ≢ []
feed_answers [] p seen old r ne n h = absurd (omega (arith, IsReading-length p seen r))
feed_answers (b ∷ bs) p seen old r ne (n, ns) h =
    answer_step p seen b bs old ne
      (λ q r'.
        feed_answers bs q (seen ++ (b ∷ [])) old r'
          (λ e. omega (arith, ap length e, length-append seen (b ∷ []))) ns
          (omega (arith, length-append seen (b ∷ []))))
      (consume-Advance p seen b old r n)
