-- ===== src/Parser/Stream/Laws.antt =====
-- firmware/protocol/parser.c: `parser_consume_byte` on whole streams.
use tp5_borda_rojas.Base.{
  ℕ, some, [], ◌∷◌, ◌++◌, append-nil, append_assoc, ◌≡◌, ◌≢◌, refl, ap, ◌==◌, ==_iff, Bool-cases,
  inl, inr, Bytes, All,
}
use tp5_borda_rojas.Config.{carriage_return}
use tp5_borda_rojas.Protocol.Message.{Message}
use tp5_borda_rojas.Protocol.Spec.{IsFrame}
use tp5_borda_rojas.Protocol.RoundTrip.{IsFrame-unique}
use tp5_borda_rojas.Parser.{in_progress, message_ready, error, Parser, consume}
use tp5_borda_rojas.Parser.Reading.{IsReading, Advance, more, skipped, delivered, lost}
use tp5_borda_rojas.Parser.Consume.{consume-Advance, consume-carriage_return}
use tp5_borda_rojas.Parser.Incomplete.{not-IsFrame_seen, IsFrame-prefix}
use tp5_borda_rojas.Parser.Stream.{
  received, failed, buffer, events_of, Stream, before, feed, without_cr,
}

-- A carriage return anywhere changes nothing.
pub feed-without_cr :
    (p : Parser) (m : Message) (bs : Bytes) → feed p m bs ≡ feed p m (without_cr bs)
unfolding feed without_cr
feed-without_cr p m [] = refl
feed-without_cr p m (b ∷ bs) = elim (Bool-cases (b == carriage_return)) [
  | inl cr ↦
      let here : b ≡ carriage_return = (==_iff _ _).0 cr in
      rw (here, consume-carriage_return p (some m)) (feed-without_cr p m bs)
  | inr other ↦ rw other (
      ap (before (events_of m (consume p b (some m)))) (
        feed-without_cr (consume p b (some m)).parser (buffer m (consume p b (some m)).message) bs))
]

-- Some bytes and then others.
pub feed-append :
    (p : Parser) (m : Message) (xs ys : Bytes)
    → feed p m (xs ++ ys)
      ≡ before (feed p m xs).events (feed (feed p m xs).parser (feed p m xs).message ys)
unfolding feed
feed-append p m [] ys = refl
feed-append p m (b ∷ xs) ys =
    let c = consume p b (some m) in
    rw (feed-append c.parser (buffer m c.message) xs ys, append_assoc) refl

-- One byte that is kept, or the last of a frame.
pub feed_more :
    (p : Parser) (m : Message) (b : ℕ) (bs : Bytes)
    → (consume p b (some m)).result ≡ in_progress
    → (consume p b (some m)).message ≡ some m
    → feed p m (b ∷ bs) ≡ feed (consume p b (some m)).parser m bs
unfolding feed
feed_more p m b bs e f = rw (e, f)

pub feed_ready :
    (p : Parser) (m m' : Message) (b : ℕ) (bs : Bytes)
    → (consume p b (some m)).result ≡ message_ready
    → (consume p b (some m)).message ≡ some m'
    → feed p m (b ∷ bs) ≡ before (received m' ∷ []) (feed (consume p b (some m)).parser m' bs)
unfolding feed
feed_ready p m m' b bs e f = rw (e, f)

pub feed_error :
    (p : Parser) (m : Message) (b : ℕ) (bs : Bytes)
    → (consume p b (some m)).result ≡ error
    → (consume p b (some m)).message ≡ some m
    → feed p m (b ∷ bs) ≡ before (failed ∷ []) (feed (consume p b (some m)).parser m bs)
unfolding feed
feed_error p m b bs e f = rw (e, f)

-- The stream's end when exactly one frame has come in: one event, and a parser that waits.
pub record Receives (s : Stream) (m : Message) : Type 0 where
  pub once : s.events ≡ received m ∷ []
  pub stored : s.message ≡ m
  pub waits : IsReading s.parser []

abbrev pub NoCr : Bytes → Type 0
NoCr = All (λ c. c ≢ carriage_return)

pub feed-nil :
    (p : Parser) (m : Message) → feed p m [] ≡ record { parser = p; message = m; events = [] }
unfolding feed
feed-nil p m = refl

-- The next byte of a frame, given what the bytes behind it do.
receive_step :
    (p : Parser) (seen : Bytes) (b : ℕ) (bs : Bytes) (old m : Message)
    → IsFrame (seen ++ (b ∷ bs)) m
    → ((q : Parser)
        → IsReading q (seen ++ (b ∷ []))
        → IsFrame ((seen ++ (b ∷ [])) ++ bs) m
        → Receives (feed q old bs) m)
    → Advance seen b old (consume p b (some old))
    → Receives (feed p old (b ∷ bs)) m
receive_step p seen b bs old m q later (more e f r) =
    rw (feed_more p old b bs e f) (later _ r (rw append_assoc q))
receive_step p seen b bs old m q later (skipped e f s ne r) =
    absurd (ne (cc (ap (λ l. l ++ (b ∷ bs)) s, q.text)))
receive_step p seen b bs old m q later (delivered m' e f here r) =
    let longer : IsFrame ((seen ++ (b ∷ [])) ++ bs) m = rw append_assoc q in
    let done : bs ≡ [] = IsFrame-prefix (seen ++ (b ∷ [])) bs m' m here longer in
    let same : m' ≡ m = IsFrame-unique _ m' m here (rw (done, append-nil) at longer) in
    rw (feed_ready p old m' b bs e f, done, feed-nil, same)
      (record { once = refl; stored = refl; waits = r })
receive_step p seen b bs old m q later (lost e f never r) = absurd (never bs m (rw append_assoc q))

-- A parser that has kept the beginning of a frame receives its message when the rest comes.
pub receive_rest :
    (rest : Bytes) (p : Parser) (seen : Bytes) (old m : Message)
    → IsReading p seen
    → NoCr rest
    → IsFrame (seen ++ rest) m
    → Receives (feed p old rest) m
receive_rest [] p seen old m r n q = absurd (not-IsFrame_seen p seen m r (rw append-nil at q))
receive_rest (b ∷ bs) p seen old m r (n, ns) q =
    receive_step p seen b bs old m q
      (λ p' r' q'. receive_rest bs p' (seen ++ (b ∷ [])) old m r' ns q')
      (consume-Advance p seen b old r n)
