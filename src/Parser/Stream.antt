-- ===== src/Parser/Stream.antt =====
-- The parser on a stream of bytes, as `task_parser` of firmware/app/tasks.c calls it: one parser and
-- one message buffer for all calls.
pub mod Laws
pub mod Sound
pub mod Resync
pub mod Lines
pub mod Recovery
pub mod Segments
pub mod Lined
pub mod Garbled
use tp5_borda_rojas.Base.{
  ℕ, Bool, not, Option, none, some, List, [], ◌∷◌, ◌++◌, ◌==◌, if◌then◌else◌, Bytes,
}
use tp5_borda_rojas.Config.{carriage_return}
use tp5_borda_rojas.Protocol.Message.{Message}
use tp5_borda_rojas.Parser.{
  ParserResult, in_progress, message_ready, error, Parser, Consumed, consume,
}

-- What a caller learns from a call.
pub data Event : Type 0 where
  received : Message → Event
  failed : Event

abbrev event_of : ParserResult → Message → List Event
event_of in_progress m = []
event_of message_ready m = received m ∷ []
event_of error m = failed ∷ []

-- The buffer after a call that was given it.
abbrev pub buffer : Message → Option Message → Message
buffer old none = old
buffer old (some m) = m

abbrev pub events_of : Message → Consumed → List Event
events_of old c = event_of c.result (buffer old c.message)

pub record Stream : Type 0 where
  pub parser : Parser
  pub message : Message
  pub events : List Event

abbrev pub before : List Event → Stream → Stream
before es s = record s { events = es ++ s.events }

unfoldable pub feed : Parser → Message → Bytes → Stream
feed p m [] = record { parser = p; message = m; events = [] }
feed p m (b ∷ bs) =
    let c = consume p b (some m) in before (events_of m c) (feed c.parser (buffer m c.message) bs)

-- The bytes that the parser looks at.
unfoldable pub without_cr : Bytes → Bytes
without_cr [] = []
without_cr (b ∷ bs) = let rest = without_cr bs in if b == carriage_return then rest else b ∷ rest
