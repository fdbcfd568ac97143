-- ===== src/Parser/Stream/Segments.antt =====
-- firmware/protocol/parser.c: where in the stream the messages come from.
use tp5_borda_rojas.Base.{
  ℕ, some, [], ◌∷◌, ◌++◌, append_assoc, ◌≡◌, sym, ap, ◌∙◌, ◌==◌, ==_iff, Bool-cases, inl, inr, List,
  Bytes, All,
}
use tp5_borda_rojas.Config.{start_char}
use tp5_borda_rojas.Protocol.Message.{Message}
use tp5_borda_rojas.Protocol.Spec.{IsFrame}
use tp5_borda_rojas.Parser.{Parser, consume}
use tp5_borda_rojas.Parser.Reading.{IsReading, Advance, more, skipped, delivered, lost}
use tp5_borda_rojas.Parser.Consume.{consume-Advance}
use tp5_borda_rojas.Parser.Stream.{Event, received, failed, feed}
use tp5_borda_rojas.Parser.Stream.Laws.{NoCr, feed-nil, feed_more, feed_ready, feed_error}

-- Some bytes in a row are a frame of the message.
pub record HasFrame (bytes : Bytes) (m : Message) : Type 0 where
  pub before : Bytes
  pub frame : Bytes
  pub after : Bytes
  pub splits : bytes ≡ before ++ (frame ++ after)
  pub is_frame : IsFrame frame m

abbrev pub EventFrom : Bytes → Event → Type 0
EventFrom bytes (received m) = HasFrame bytes m
EventFrom bytes failed = Unit

EventFrom-behind :
    (front bytes : Bytes) (e : Event) → EventFrom bytes e → EventFrom (front ++ bytes) e
EventFrom-behind front bytes (received m) h = record {
  before = front ++ h.before;
  frame = h.frame;
  after = h.after;
  splits = ap (λ l. front ++ l) h.splits ∙ sym (append_assoc front h.before (h.frame ++ h.after));
  is_frame = h.is_frame;
}
EventFrom-behind front bytes failed h = tt

events_behind :
    (front bytes : Bytes) (es : List Event)
    → All (EventFrom bytes) es
    → All (EventFrom (front ++ bytes)) es
events_behind front bytes [] h = tt
events_behind front bytes (e ∷ es) (h, hs) =
    (EventFrom-behind front bytes e h, events_behind front bytes es hs)

segments_step :
    (p : Parser) (seen : Bytes) (b : ℕ) (bs : Bytes) (old : Message)
    → ((q : Parser) (kept : Bytes) (m : Message)
        → IsReading q kept
        → All (EventFrom (kept ++ bs)) (feed q m bs).events)
    → Advance seen b old (consume p b (some old))
    → All (EventFrom (seen ++ (b ∷ bs))) (feed p old (b ∷ bs)).events
segments_step p seen b bs old later (more e f r) =
    rw (feed_more p old b bs e f) (rw append_assoc at (later _ (seen ++ (b ∷ [])) old r))
segments_step p seen b bs old later (skipped e f s ne r) =
    rw (feed_more p old b bs e f, s) (events_behind (b ∷ []) bs _ (later _ [] old r))
segments_step p seen b bs old later (delivered m e f q r) = rw (feed_ready p old m b bs e f) (
  record {
    before = [];
    frame = seen ++ (b ∷ []);
    after = bs;
    splits = sym (append_assoc seen (b ∷ []) bs);
    is_frame = q;
  },
  rw append_assoc at (events_behind (seen ++ (b ∷ [])) bs _ (later _ [] m r)),
)
segments_step p seen b bs old later (lost e f never r) = rw (feed_error p old b bs e f) (
  tt,
  elim (Bool-cases (b == start_char)) [
    | inl hit ↦
        let here : b ≡ start_char = (==_iff _ _).0 hit in
        let again : IsReading (consume p b (some old)).parser (b ∷ []) =
          rw (ap (λ c. c ∷ []) here) (rw hit at r) in
        events_behind seen (b ∷ bs) _ (later _ (b ∷ []) old again)
    | inr miss ↦
        rw append_assoc at (events_behind (seen ++ (b ∷ [])) bs _ (later _ [] old (rw miss at r)))
  ],
)

-- Each message that a parser reports on a stream is that of a frame in it, in what the parser has kept
-- and the bytes behind it.
pub feed-EventFrom :
    (bs : Bytes) (p : Parser) (seen : Bytes) (old : Message)
    → IsReading p seen
    → NoCr bs
    → All (EventFrom (seen ++ bs)) (feed p old bs).events
feed-EventFrom [] p seen old r n = rw (feed-nil p old) tt
feed-EventFrom (b ∷ bs) p seen old r (n, ns) =
    segments_step p seen b bs old (λ q kept m k. feed-EventFrom bs q kept m k ns)
      (consume-Advance p seen b old r n)
