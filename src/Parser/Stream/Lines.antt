-- ===== src/Parser/Stream/Lines.antt =====
-- firmware/protocol/parser.c: a stream of frames with noise around them.
use tp5_borda_rojas.Base.{append-nil, List, [], ◌∷◌, ◌++◌, ◌≡◌, refl, ap, Bytes}
use tp5_borda_rojas.Protocol.Message.{Message}
use tp5_borda_rojas.Protocol.Spec.{IsFrame}
use tp5_borda_rojas.Parser.{Parser}
use tp5_borda_rojas.Parser.Reading.{IsReading}
use tp5_borda_rojas.Parser.Stream.{Event, received, feed, without_cr}
use tp5_borda_rojas.Parser.Stream.Laws.{feed-append, feed-nil}
use tp5_borda_rojas.Parser.Stream.Resync.{Noise, waiting, feed-Noise, feed-Receives}

-- A frame for each message, in their order, whatever carriage returns stand in it; in front of it, and
-- behind the last, there may be bytes other than start characters.
pub data IsLines : Bytes → List Message → Type 0 where
  no_more : (noise : Bytes) → Noise noise → IsLines noise []
  line :
      (noise bs rest : Bytes) (m : Message) (ms : List Message)
      → Noise noise
      → IsFrame (without_cr bs) m
      → IsLines rest ms
      → IsLines ((noise ++ bs) ++ rest) (m ∷ ms)

abbrev pub all_received : List Message → List Event
all_received [] = []
all_received (m ∷ ms) = received m ∷ all_received ms

-- A parser that waits receives each message of such a stream, in their order, and no error.
pub feed-IsLines :
    (bytes : Bytes) (ms : List Message) (p : Parser) (old : Message)
    → IsReading p []
    → IsLines bytes ms
    → (feed p old bytes).events ≡ all_received ms
feed-IsLines bytes ms p old r (no_more noise n) =
    rw
      (
        ← append-nil bytes,
        feed-Noise bytes [] p old (waiting p.state p r.reading) n,
        feed-nil p old,
      )
      refl
feed-IsLines bytes ms p old r (line noise bs rest m others n q k) =
    let got = feed-Receives noise bs p old m r n q in
    let s = feed p old (noise ++ bs) in
    rw (feed-append p old (noise ++ bs) rest, got.once)
      (ap (λ es. received m ∷ es) (feed-IsLines rest others s.parser s.message got.waits k))
