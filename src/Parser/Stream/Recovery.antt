-- ===== src/Parser/Stream/Recovery.antt =====
-- firmware/protocol/parser.c: how a pause in the stream sets the parser right again.
use tp5_borda_rojas.Base.{
  ℕ, false, ◌+◌, ◌≤◌, some, [], ◌∷◌, ◌++◌, append-nil, append_assoc, ◌≡◌, ◌≢◌, refl, ap, arith,
  ◌==◌, Bytes, length, length-append,
}
use tp5_borda_rojas.Config.{start_char}
use tp5_borda_rojas.Protocol.Message.{Message}
use tp5_borda_rojas.Protocol.Spec.{IsFrame}
use tp5_borda_rojas.Parser.{Parser, consume}
use tp5_borda_rojas.Parser.Reading.{IsReading, Advance, more, skipped, delivered, lost}
use tp5_borda_rojas.Parser.Consume.{consume-Advance}
use tp5_borda_rojas.Parser.Incomplete.{IsReading-length}
use tp5_borda_rojas.Parser.Stream.{received, feed, without_cr}
use tp5_borda_rojas.Parser.Stream.Laws.{
  NoCr, feed-append, feed-nil, feed_more, feed_ready, feed_error,
}
use tp5_borda_rojas.Parser.Stream.Sound.{feed-Keeps}
use tp5_borda_rojas.Parser.Stream.Resync.{Noise, waiting, feed-Noise, feed-Receives}

-- A parser that waits stays as it is.
feed_calm :
    (noise : Bytes) (p : Parser) (old : Message)
    → IsReading p []
    → Noise noise
    → IsReading (feed p old noise).parser []
feed_calm noise p old r n =
    rw
      (
        ← append-nil noise,
        feed-Noise noise [] p old (waiting p.state p r.reading) n,
        feed-nil p old,
      )
      r

settles_step :
    (p : Parser) (seen : Bytes) (b : ℕ) (bs : Bytes) (old : Message)
    → b ≢ start_char
    → Noise bs
    → ((q : Parser) → IsReading q (seen ++ (b ∷ [])) → IsReading (feed q old bs).parser [])
    → Advance seen b old (consume p b (some old))
    → IsReading (feed p old (b ∷ bs)).parser []
settles_step p seen b bs old ne n later (more e f r) = rw (feed_more p old b bs e f) (later _ r)
settles_step p seen b bs old ne n later (skipped e f s other r) =
    rw (feed_more p old b bs e f) (feed_calm bs _ old r n)
settles_step p seen b bs old ne n later (delivered m e f q r) =
    rw (feed_ready p old m b bs e f) (feed_calm bs _ m r n)
settles_step p seen b bs old ne n later (lost e f never r) =
    let other : (b == start_char) ≡ false = ground arith in
    rw (feed_error p old b bs e f) (feed_calm bs _ old (rw other at r) n)

settles :
    (noise : Bytes) (p : Parser) (seen : Bytes) (old : Message)
    → IsReading p seen
    → Noise noise
    → NoCr noise
    → 60 ≤ length seen + length noise
    → IsReading (feed p old noise).parser []
settles [] p seen old r n no_cr h = absurd (omega (arith, IsReading-length p seen r))
settles (b ∷ bs) p seen old r (ne, n) (cr, no_cr) h =
    settles_step p seen b bs old ne n
      (λ q r'.
        settles bs q (seen ++ (b ∷ [])) old r' n no_cr (omega (arith, length-append seen (b ∷ []))))
      (consume-Advance p seen b old r cr)

-- Whatever bytes a parser that waited has been fed, broken frames among them, behind 60 bytes or
-- more that have neither start characters nor carriage returns in them it receives the frame that
-- comes next, with hexadecimal digits of either case and whatever carriage returns stand in it:
-- exactly one event more, its message, and the parser waits again.
pub feed-recovers :
    (bytes noise bs : Bytes) (p : Parser) (old m : Message)
    → IsReading p []
    → Noise noise
    → NoCr noise
    → 60 ≤ length noise
    → IsFrame (without_cr bs) m
    → ((feed p old (bytes ++ (noise ++ bs))).events
        ≡ (feed p old (bytes ++ noise)).events ++ (received m ∷ []))
      × ((feed p old (bytes ++ (noise ++ bs))).message ≡ m)
      × IsReading (feed p old (bytes ++ (noise ++ bs))).parser []
feed-recovers bytes noise bs p old m r n no_cr h q =
    let k =
      feed-Keeps bytes p [] old (record { dropped = []; seen = []; splits = refl; reads = r }) in
    let s = feed p old bytes in
    let calm : IsReading (feed p old (bytes ++ noise)).parser [] =
      rw (feed-append p old bytes noise)
        (settles noise s.parser k.seen s.message k.reads n no_cr (omega (arith, h))) in
    let t = feed p old (bytes ++ noise) in
    let got = feed-Receives [] bs t.parser t.message m calm tt q in
    rw (← append_assoc bytes noise bs, feed-append p old (bytes ++ noise) bs)
      (ap (λ es. (feed p old (bytes ++ noise)).events ++ es) got.once, got.stored, got.waits)
