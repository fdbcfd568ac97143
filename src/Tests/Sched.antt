-- ===== src/Tests/Sched.antt =====
-- The theorems on the priorities and on the heap, applied.
use tp5_borda_rojas.Base.{
  ◌+◌, length, ◌≤◌, suc, List, ◌∷◌, ℕ, ◌<◌, ◌≡◌, true, some, [], refl, arith, false,
}
use tp5_borda_rojas.Uart.{usart1_isr, set_rx_queue}
use tp5_borda_rojas.Firmware.{
  Reach, Action, interrupt, rx_receive, rx_send, parse, parser_send, handle, app_send, transmit,
  actuate, System, act,
}
use tp5_borda_rojas.Startup.{main, running, created_tasks}
use tp5_borda_rojas.Startup.Laws.{config_lengths}
use tp5_borda_rojas.Startup.Heap.{Sizes, Grants, Small, main-Runs}
use tp5_borda_rojas.Schedule.{came, priority, MayRun, Paced, begin, byte, urgent}
use tp5_borda_rojas.Schedule.Laws.{Found, MayRun-Found}
use tp5_borda_rojas.Schedule.Pace.{Paced-no_drop}
use tp5_borda_rojas.Protocol.Spec.{IsFrame}
use tp5_borda_rojas.Parser.Stream.{without_cr}
use tp5_borda_rojas.Parser.Stream.Lines.{IsLines, no_more, line}
use tp5_borda_rojas.Startup.Lines.{Answers, main-Answers}
use tp5_borda_rojas.Firmware.Settle.{Run, run_of}
use tp5_borda_rojas.Tests.Data.{
  ping, ping_frame-IsFrame, waiting, waiting-IsReading, led_on, app, pin, queues, ping_frame,
}
use tp5_borda_rojas.Tests.Boot.{
  arrived, start-runs, env, locals, early, kernel, start, start-Ready, quiet_run, last-Reach,
}

abbrev sizes : Sizes
sizes = record { message = 56; command = 32; queue = 80; task = 100; heap = 16; block = 16 }

sizes-Small : Small sizes
sizes-Small = record {
  message = omega arith;
  command = omega arith;
  queue = omega arith;
  task = omega arith;
  heap = omega arith;
  block = omega arith;
}

sizes-Grants : Grants sizes queues kernel
sizes-Grants = record {
  isr_queue = λ h e. cc;
  parser_queue = λ h e. cc;
  app_queue = λ h e. cc;
  tx_queue = λ h e. cc;
  actuator_queue = λ h e. cc;
  tasks = (λ h. refl, (λ h. refl, (λ h. refl, (λ h. refl, (λ h. refl, tt)))));
  idle_task = λ h. refl;
}

main-Runs_example :
    (s : System queues pin) × ((main queues pin locals kernel early app false).outcome
      ≡ running s created_tasks)
main-Runs_example =
    main-Runs queues pin env sizes sizes-Small kernel sizes-Grants locals early app false refl

MayRun-Found_example : Found queues pin env config_lengths start quiet_run.last ping_frame
MayRun-Found_example =
    MayRun-Found queues pin env config_lengths start quiet_run.last ping_frame handle start-Ready
      last-Reach (λ b is lower. quiet_run.stuck b is) (omega arith)

-- No task has a priority above 3.
highest : (s : System queues pin) (a b : Action) → priority a ≡ 3 → priority a < priority b → ⊥
highest s a (interrupt w) e h = omega (arith, e, h)
highest s a rx_receive e h = omega (arith, e, h)
highest s a rx_send e h = omega (arith, e, h)
highest s a parse e h = omega (arith, e, h)
highest s a parser_send e h = omega (arith, e, h)
highest s a handle e h = omega (arith, e, h)
highest s a app_send e h = omega (arith, e, h)
highest s a transmit e h = omega (arith, e, h)
highest s a actuate e h = omega (arith, e, h)

rx_MayRun : (s : System queues pin) → MayRun queues pin env s rx_receive
rx_MayRun s b is h = absurd (highest s rx_receive b refl h)

-- A byte arrives, `task_uart_rx` takes it, and another arrives.
abbrev one : System queues pin
one = record start { uart = usart1_isr (queues ℕ) start.uart true 64 }

abbrev two : System queues pin
two = record one { rx_held = some 64; uart = record (one.uart) { rx_queue = some (64, []) } }

abbrev three : System queues pin
three = record two { uart = usart1_isr (queues ℕ) two.uart true 48 }

paced : Paced queues pin env 64 start three 2
unfolding act usart1_isr set_rx_queue
paced =
    byte two three 48 1
      (urgent one two rx_receive 1 (byte start one 64 0 begin (omega arith) refl) tt (rx_MayRun one)
        refl)
      (omega arith) refl

Paced-no_drop_example :
    (three.uart.rx_drop_count ≡ start.uart.rx_drop_count)
    × Reach queues pin env start three (came queues pin env 64 start three 2 paced)
Paced-no_drop_example = Paced-no_drop queues pin env config_lengths start start-Ready 2 three paced

-- So many interrupts, one after another.
abbrev later_by : List ℕ → ℕ → ℕ
later_by [] i = i
later_by (w ∷ ws) i = later_by ws (suc i)

abbrev interrupted :
    (ws : List ℕ) (s : System queues pin) (i : ℕ)
    → Paced queues pin env 64 start s i
    → i + length ws ≤ 64
    → Paced queues pin env 64 start (arrived s ws) (later_by ws i)
unfolding act
interrupted [] s i p h = p
interrupted (w ∷ ws) s i p h =
    let t = record s { uart = usart1_isr (queues ℕ) s.uart true w } in
    interrupted ws t (suc i) (byte s t w i p (omega (arith, h)) refl) (omega (arith, h))

abbrev pinged : Paced queues pin env 64 start (arrived start ping_frame) 16
pinged = interrupted ping_frame start 0 begin (omega arith)

bare-IsFrame : IsFrame (without_cr ping_frame) ping
unfolding without_cr
bare-IsFrame = ping_frame-IsFrame

came-IsLines :
    IsLines (came queues pin env 64 start (arrived start ping_frame) 16 pinged) (ping ∷ [])
unfolding interrupted
came-IsLines = line [] ping_frame [] ping [] tt bare-IsFrame (no_more [] tt)

pinged_run : Run queues pin env (arrived start ping_frame)
pinged_run = run_of queues pin env (arrived start ping_frame)

main-Answers_example :
    Answers queues pin env waiting led_on waiting-IsReading locals kernel early app refl false start
      start-runs
      (arrived start ping_frame)
      pinged_run.actions
      pinged_run.last
      (ping ∷ [])
main-Answers_example =
    main-Answers queues pin env waiting led_on waiting-IsReading locals kernel early app refl false
      start start-runs (arrived start ping_frame) 16 (ping ∷ []) pinged came-IsLines
      pinged_run.actions pinged_run.last pinged_run.are_tasks pinged_run.makes
