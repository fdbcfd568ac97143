-- ===== src/Tests/Device.antt =====
-- The theorems on the application, the actuators, the driver and the tasks, applied.
use tp5_borda_rojas.Base.{
  Bytes, ◌+◌, ◌%◌, ◌≤◌, ◌^◌, ◌≡◌, ◌↔◌, true, some, ◌∷◌, [], refl, arith, codes, length,
}
use tp5_borda_rojas.Config.{max_payload_length}
use tp5_borda_rojas.Protocol.Message.{sts}
use tp5_borda_rojas.Actuators.Laws.{lit}
use tp5_borda_rojas.App.{handle_message, build_status_message, status_text}
use tp5_borda_rojas.App.Laws.{text_message, status_payload, status_digits, build_status_message_lem}
use tp5_borda_rojas.App.Replies.{commands_of, messages_of}
use tp5_borda_rojas.App.Answers.{counted, reply_of, handle_message-reply_of}
use tp5_borda_rojas.Parser.Stream.{feed}
use tp5_borda_rojas.Tasks.Session.{AppEnv, run_session}
use tp5_borda_rojas.Tasks.Session.Laws.{Served, run_session-Served}
use tp5_borda_rojas.App.Led.{run_commands, led_spec, lit-handle_message}
use tp5_borda_rojas.Uart.{Uart, isr_burst}
use tp5_borda_rojas.Uart.Laws.{Burst, isr_burst-Burst}
use tp5_borda_rojas.Tasks.ParserTask.{ParserTask, parser_rounds}
use tp5_borda_rojas.Tasks.ParserTask.Laws.{messages, Follows, parser_rounds-Follows}
use tp5_borda_rojas.Tasks.Telemetry.{telemetry_round}
use tp5_borda_rojas.Tasks.Telemetry.Laws.{due, telemetry_round-due}
use tp5_borda_rojas.Tests.Data.{
  waiting-IsReading, ping, pong, led_on, waiting, pin, app, counters, bounded,
}

lit-handle_message_example :
    lit pin (
      run_commands pin 4
        (commands_of (handle_message app counters pong (some led_on) 3 4).sends)
        true)
    ≡ led_spec led_on (lit pin true)
lit-handle_message_example =
    lit-handle_message pin app counters pong led_on 3 4 true (omega arith) (omega arith)

build_status_message_lem_example :
    (build_status_message app counters (some pong)
      ≡ some (text_message sts (status_payload app counters)))
    × ((status_payload app counters ≡ status_text app counters) ↔ (status_digits app counters ≤ 20))
    × (length (status_payload app counters) ≤ max_payload_length)
build_status_message_lem_example = build_status_message_lem app counters pong

telemetry_round-due_example :
    ((telemetry_round app counters [] pong 10).sends ≡ due app counters 10)
    × ((telemetry_round app counters [] pong 10).counter ≡ (10 + 1) % 2 ^ 32)
telemetry_round-due_example = telemetry_round-due app counters [] pong 10 (omega arith)

-- A driver with one byte in its queue, which has room for three.
abbrev driver : Uart bounded
driver = record { rx_queue = some (3, 7 ∷ []); rx_irq_count = 1; rx_drop_count = 0 }

isr_burst-Burst_example :
    Burst bounded driver
      (3, 7 ∷ [])
      (10 ∷ 11 ∷ 12 ∷ [])
      (isr_burst bounded driver (10 ∷ 11 ∷ 12 ∷ []))
isr_burst-Burst_example =
    isr_burst-Burst bounded (10 ∷ 11 ∷ 12 ∷ []) driver (3, 7 ∷ []) refl (omega arith) (omega arith)

abbrev task : ParserTask
task = record {
  parser = waiting;
  message = pong;
  byte_count = 0;
  message_count = 0;
  error_count = 0;
}

parser_rounds-Follows_example :
    Follows task (codes "@08:CMD:ping:52\n") (parser_rounds task (codes "@08:CMD:ping:52\n"))
parser_rounds-Follows_example =
    parser_rounds-Follows (codes "@08:CMD:ping:52\n") task (ground arith)

handle_message-reply_of_example :
    (messages_of (handle_message app counters pong (some ping) 3 4).sends
      ≡ (3, reply_of app counters ping) ∷ [])
    × ((handle_message app counters pong (some ping) 3 4).state ≡ counted app ping)
handle_message-reply_of_example =
    handle_message-reply_of app counters pong ping 3 4 (omega arith) (omega arith)

abbrev env : AppEnv
env = record { counters = λ i. counters; garbage = pong }

-- A frame of `ping` behind noise, and one that breaks off.
abbrev wire : Bytes
wire = codes "noise@08:CMD:ping:52\r\n@0a:CM"

run_session-Served_example :
    Served pin env app
      (messages (feed waiting pong wire).events)
      waiting
      led_on
      true
      (run_session env task app wire [] 0)
run_session-Served_example =
    run_session-Served pin env task app wire [] 0 waiting led_on true (ground arith)
      waiting-IsReading
