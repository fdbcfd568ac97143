-- ===== src/Tests/Boot.antt =====
-- The theorems on the start and on the whole system, applied.
use tp5_borda_rojas.Base.{
  ◌≡◌, ℕ, ◌+◌, ◌≤◌, true, false, some, List, [], ◌∷◌, refl, arith, Bytes, length, drop, ◌++◌,
}
use tp5_borda_rojas.Parser.{parser_init, parser_reset}
use tp5_borda_rojas.App.{app_init}
use tp5_borda_rojas.Actuators.{actuators_init}
use tp5_borda_rojas.Uart.{usart1_isr, set_rx_queue}
use tp5_borda_rojas.Tasks.ParserTask.Laws.{IsWord}
use tp5_borda_rojas.Tasks.Session.{AppEnv}
use tp5_borda_rojas.Tasks.Session.Laws.{answers}
use tp5_borda_rojas.Firmware.{interrupt, rx_receive, System, act, Reach, here, later, accepted}
use tp5_borda_rojas.Firmware.Sized.{Reach-Sized}
use tp5_borda_rojas.Firmware.Measure.{work, act_all-work}
use tp5_borda_rojas.Firmware.Stuck.{Idle, IsStuck-Idle}
use tp5_borda_rojas.Firmware.Settle.{Run, run_of, Reach-act_all}
use tp5_borda_rojas.Firmware.Ready.{Ready}
use tp5_borda_rojas.Firmware.Refine.{Settled, IsStuck-Settled}
use tp5_borda_rojas.Firmware.Outside.{
  messages_for, HeardSome, Reach-HeardSome, LitNow, Reach-LitNow,
}
use tp5_borda_rojas.Firmware.Counted.{Counted, Reach-Counted}
use tp5_borda_rojas.Firmware.Finish.{Finish, Reach-Finish}
use tp5_borda_rojas.Parser.Stream.{feed}
use tp5_borda_rojas.Tasks.ParserTask.Laws.{messages}
use tp5_borda_rojas.Startup.{Kernel, Locals, main, at_start, running, created_tasks, tasks_start}
use tp5_borda_rojas.Startup.Service.{Serves, main-Serves}
use tp5_borda_rojas.Startup.Laws.{config_lengths, Booted}
use tp5_borda_rojas.Startup.Boot.{uart, at_start-Ready, main-Booted}
use tp5_borda_rojas.Tests.Data.{
  ping_frame, waiting, waiting-IsReading, started, pong, led_on, app, counters, pin, queues,
}

abbrev pub env : AppEnv
env = record { counters = λ i. counters; garbage = pong }

-- Memory with a parser in the middle of a frame.
abbrev pub locals : Locals
locals = record { parser = started; message = pong; frame = b'x' ∷ [] }

abbrev pub early : List ℕ
early = 7 ∷ 8 ∷ []

abbrev pub kernel : Kernel
kernel = record { creates = λ t. true; starts = true }

main-Booted_example :
    Booted queues pin env kernel early (main queues pin locals kernel early app false)
main-Booted_example = main-Booted queues pin env locals early refl app false kernel

-- The system that starts, the one after an interrupt, and the one after `task_uart_rx` has its byte.
abbrev pub start : System queues pin
start =
    at_start queues pin locals (uart queues pin env locals early refl app false) (app_init app)
      (actuators_init pin false) (64, []) (64, []) (8, []) (8, []) (8, [])

pub start-Ready : Ready queues pin env config_lengths start
start-Ready = at_start-Ready queues pin env locals early refl app false refl refl refl refl refl

-- After the interrupts for these words.
abbrev pub arrived : System queues pin → List ℕ → System queues pin
arrived s [] = s
arrived s (w ∷ words) = arrived (record s { uart = usart1_isr (queues ℕ) s.uart true w }) words

abbrev arrived_bytes : System queues pin → Bytes → List ℕ → Bytes
arrived_bytes s bytes [] = bytes
arrived_bytes s bytes (w ∷ words) =
    arrived_bytes (record s { uart = usart1_isr (queues ℕ) s.uart true w })
      (bytes ++ accepted queues pin s (interrupt w)) words

arrived-Reach :
    (words : List ℕ) (s : System queues pin) (bytes : Bytes)
    → Reach queues pin env start s bytes
    → Reach queues pin env start (arrived s words) (arrived_bytes s bytes words)
unfolding act
arrived-Reach [] s bytes r = r
arrived-Reach (w ∷ words) s bytes r =
    arrived-Reach words (record s { uart = usart1_isr (queues ℕ) s.uart true w })
      (bytes ++ accepted queues pin s (interrupt w)) (later s _ bytes (interrupt w) r refl)

-- A frame has arrived, and `task_uart_rx` has its first byte.
abbrev received : System queues pin
received = record (arrived start ping_frame) {
  rx_held = some b'@';
  uart = record ((arrived start ping_frame).uart) { rx_queue = some (64, drop 1 ping_frame) };
}

start-received : Reach queues pin env start received ping_frame
unfolding act usart1_isr set_rx_queue
start-received =
    later (arrived start ping_frame) received ping_frame rx_receive
      (arrived-Reach ping_frame start [] here) refl

start-IsWord : IsWord start.parser
unfolding parser_init parser_reset
start-IsWord = ground arith

pub quiet_run : Run queues pin env received
quiet_run = run_of queues pin env received

act_all-work_example :
    length quiet_run.actions + work queues pin quiet_run.last ≤ work queues pin received
act_all-work_example =
    act_all-work queues pin env quiet_run.actions received quiet_run.last quiet_run.are_tasks
      quiet_run.makes

pub last-Reach : Reach queues pin env start quiet_run.last ping_frame
last-Reach =
    Reach-act_all queues pin env start quiet_run.actions received quiet_run.last ping_frame
      start-received quiet_run.are_tasks quiet_run.makes

IsStuck-Idle_example : Idle queues pin env quiet_run.last
IsStuck-Idle_example =
    IsStuck-Idle queues pin env quiet_run.last quiet_run.stuck config_lengths start-Ready.roomy (
      Reach-Sized queues pin env config_lengths start quiet_run.last ping_frame start-Ready.sized
        last-Reach)

IsStuck-Settled_example :
    Settled queues pin env config_lengths start start-Ready quiet_run.last ping_frame
IsStuck-Settled_example =
    IsStuck-Settled queues pin env config_lengths start start-Ready quiet_run.last ping_frame
      last-Reach quiet_run.stuck

pub start-runs :
    (main queues pin locals kernel early app false).outcome ≡ running start created_tasks
unfolding main tasks_start
start-runs = refl

main-Serves_example :
    Serves queues pin env waiting led_on received quiet_run.actions quiet_run.last
      (messages (feed start.parser.parser start.parser.message ping_frame).events)
main-Serves_example =
    main-Serves queues pin env waiting led_on waiting-IsReading locals kernel early app false refl
      start start-runs received ping_frame start-received quiet_run.actions quiet_run.last
      quiet_run.are_tasks quiet_run.makes

Reach-HeardSome_example :
    HeardSome queues pin env config_lengths start start-Ready waiting led_on received (
      answers env 0 start.app
        (messages_for queues pin env config_lengths start start-Ready ping_frame))
Reach-HeardSome_example =
    Reach-HeardSome queues pin env config_lengths start start-Ready waiting led_on start-IsWord
      waiting-IsReading received ping_frame start-received

Reach-LitNow_example :
    LitNow queues pin env config_lengths start start-Ready received
      (messages_for queues pin env config_lengths start start-Ready ping_frame)
Reach-LitNow_example =
    Reach-LitNow queues pin env config_lengths start start-Ready start-IsWord received ping_frame
      start-received

Reach-Counted_example : Counted queues pin env config_lengths start start-Ready received ping_frame
unfolding app_init
Reach-Counted_example =
    Reach-Counted queues pin env config_lengths start start-Ready start-IsWord (ground arith)
      received ping_frame start-received

Reach-Finish_example :
    Finish queues pin env config_lengths start start-Ready waiting led_on received ping_frame
      quiet_run.actions quiet_run.last
Reach-Finish_example =
    Reach-Finish queues pin env config_lengths start start-Ready waiting led_on start-IsWord
      waiting-IsReading received ping_frame start-received quiet_run.actions quiet_run.last
      quiet_run.are_tasks quiet_run.makes
