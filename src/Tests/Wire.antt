-- ===== src/Tests/Wire.antt =====
-- The theorems on the parser and the line, applied.
use tp5_borda_rojas.Base.{
  All, ℕ, zero, suc, ◌+◌, ◌<◌, ◌≡◌, ◌≢◌, some, ◌++◌, ◌∷◌, [], refl, arith, Bytes, codes, length,
  replicate,
}
use tp5_borda_rojas.Config.{max_body_size}
use tp5_borda_rojas.Protocol.Message.{type_from_text, enum_value}
use tp5_borda_rojas.Protocol.Hex.{hex_char_to_nibble, join_nibbles}
use tp5_borda_rojas.Protocol.Spec.{IsFrame}
use tp5_borda_rojas.Protocol.Decode.{decode_body, decode_checked}
use tp5_borda_rojas.Parser.{
  consume, read_body, message_ready, error, parser_error, parser_hex_byte, parser_checksum_matches,
  xor_body,
}
use tp5_borda_rojas.Parser.Reading.{IsReading, Advance, NoFrame}
use tp5_borda_rojas.Parser.Consume.{consume-Advance}
use tp5_borda_rojas.Parser.Stream.{received, feed, without_cr}
use tp5_borda_rojas.Parser.Stream.Laws.{Receives, NoCr}
use tp5_borda_rojas.Parser.Stream.Sound.{Source, message_ready-Source, feed_bounds, feed_answers}
use tp5_borda_rojas.Parser.Stream.Resync.{
  Noise, feed-Receives, error-NoFrame, error_at_start-Receives, error-Receives,
}
use tp5_borda_rojas.Parser.Stream.Recovery.{feed-recovers}
use tp5_borda_rojas.Parser.Stream.Garbled.{OnlyOf, feed-one_byte}
use tp5_borda_rojas.Tasks.UartTx.{tx_round}
use tp5_borda_rojas.Tasks.UartTx.Laws.{tx_round-Receives}
use tp5_borda_rojas.Tests.Data.{
  ping, pong, ping_frame-IsFrame, ping-IsSendable, waiting, waiting-IsReading, started,
  started-IsReading,
}

crlf-IsFrame : IsFrame (without_cr (codes "@08:CMD:ping:52\r\n")) ping
unfolding without_cr
crlf-IsFrame = ping_frame-IsFrame

feed-Receives_example :
    Receives (feed waiting pong (codes "ok " ++ codes "@08:CMD:ping:52\r\n")) ping
feed-Receives_example =
    feed-Receives (codes "ok ") (codes "@08:CMD:ping:52\r\n") waiting pong ping waiting-IsReading
      (ground arith) crlf-IsFrame

abbrev all_but_end : Bytes
all_but_end = codes "z@08:CMD:ping:52"

ping_ready :
    (consume
      (feed waiting pong all_but_end).parser
      b'\n'
      (some (feed waiting pong all_but_end).message)).result
    ≡ message_ready
unfolding feed consume parser_checksum_matches xor_body parser_hex_byte parser_error
    hex_char_to_nibble join_nibbles decode_body decode_checked type_from_text enum_value
ping_ready = refl

message_ready-Source_example : Source (without_cr all_but_end ++ (b'\n' ∷ [])) (
    consume
      (feed waiting pong all_but_end).parser
      b'\n'
      (some (feed waiting pong all_but_end).message))
message_ready-Source_example =
    message_ready-Source all_but_end b'\n' waiting pong waiting-IsReading ping_ready

tx_round-Receives_example : Receives (feed waiting pong (tx_round ping [] 0)) ping
tx_round-Receives_example =
    tx_round-Receives ping pong [] 0 waiting ping-IsSendable (ground arith) waiting-IsReading

reads_body : (feed waiting pong (codes "@08:CMD:pi")).parser.state ≡ read_body
unfolding feed consume parser_hex_byte hex_char_to_nibble join_nibbles
reads_body = refl

feed_bounds_example :
    ((feed waiting pong (codes "@08:CMD:pi")).parser.body_index + 1
      < length (feed waiting pong (codes "@08:CMD:pi")).parser.body)
    × (length (feed waiting pong (codes "@08:CMD:pi")).parser.body ≡ max_body_size + 1)
feed_bounds_example = feed_bounds (codes "@08:CMD:pi") waiting pong waiting-IsReading reads_body

NoCr-replicate : (n : ℕ) → NoCr (replicate n b'0')
NoCr-replicate zero = tt
NoCr-replicate (suc n) = (ground arith, NoCr-replicate n)

feed_answers_example : (feed started pong (replicate 60 b'0')).events ≢ []
feed_answers_example =
    feed_answers (replicate 60 b'0') started (b'@' ∷ []) pong started-IsReading (ground arith)
      (NoCr-replicate 60) (omega arith)

consume-Advance_example : Advance (b'@' ∷ []) b'0' pong (consume started b'0' (some pong))
consume-Advance_example =
    consume-Advance started (b'@' ∷ []) b'0' pong started-IsReading (omega arith)

broken_by_z : (consume started b'z' (some pong)).result ≡ error
unfolding consume hex_char_to_nibble parser_error
broken_by_z = refl

broken_by_start : (consume started b'@' (some pong)).result ≡ error
unfolding consume hex_char_to_nibble parser_error
broken_by_start = refl

error-NoFrame_example :
    NoFrame ((b'@' ∷ []) ++ (b'z' ∷ [])) × ((consume started b'z' (some pong)).message ≡ some pong)
error-NoFrame_example = error-NoFrame started (b'@' ∷ []) b'z' pong started-IsReading broken_by_z

error_at_start-Receives_example :
    Receives (feed (consume started b'@' (some pong)).parser pong (codes "08:CMD:ping:52\r\n")) ping
unfolding without_cr
error_at_start-Receives_example =
    error_at_start-Receives started (b'@' ∷ []) b'@' pong started-IsReading broken_by_start
      (codes "08:CMD:ping:52\r\n") ping refl ping_frame-IsFrame

error-Receives_example :
    Receives
      (feed
        (consume started b'z' (some pong)).parser
        pong
        (codes "?!" ++ codes "@08:CMD:ping:52\r\n"))
      ping
error-Receives_example =
    error-Receives started (b'@' ∷ []) b'z' pong started-IsReading broken_by_z (codes "?!")
      (codes "@08:CMD:ping:52\r\n") ping (omega arith) (ground arith) crlf-IsFrame

-- Where an `n` becomes an end character.
feed-one_byte_example : All (OnlyOf ping) (feed waiting pong (codes "@08:CMD:pi\ng:52\n")).events
feed-one_byte_example =
    feed-one_byte (codes "@08:CMD:pi") (codes "g:52\n") b'n' b'\n' ping ping_frame-IsFrame
      (ground arith) waiting pong waiting-IsReading (omega arith) (omega arith)

Noise-replicate : (n : ℕ) → Noise (replicate n b'0')
Noise-replicate zero = tt
Noise-replicate (suc n) = (ground arith, Noise-replicate n)

-- Behind the beginning of a frame that never comes to its end.
feed-recovers_example :
    ((feed waiting pong
        (codes "@30:CMD" ++ (replicate 60 b'0' ++ codes "@08:CMD:ping:52\r\n"))).events
      ≡ (feed waiting pong (codes "@30:CMD" ++ replicate 60 b'0')).events ++ (received ping ∷ []))
    × ((feed waiting pong
          (codes "@30:CMD" ++ (replicate 60 b'0' ++ codes "@08:CMD:ping:52\r\n"))).message
        ≡ ping)
    × IsReading
        (feed waiting pong
          (codes "@30:CMD" ++ (replicate 60 b'0' ++ codes "@08:CMD:ping:52\r\n"))).parser
        []
feed-recovers_example =
    feed-recovers (codes "@30:CMD") (replicate 60 b'0') (codes "@08:CMD:ping:52\r\n") waiting pong
      ping waiting-IsReading (Noise-replicate 60) (NoCr-replicate 60) (omega arith) crlf-IsFrame
