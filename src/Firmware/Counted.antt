-- ===== src/Firmware/Counted.antt =====
-- firmware/drivers/uart_comm.c, firmware/app/tasks.c and firmware/app/app.c: the counters that a status message
-- reports, while the system runs.
use tp5_borda_rojas.Base.{
  ℕ, ◌+◌, ◌^◌, ◌<◌, some, List, [], ◌∷◌, ◌++◌, ◌≡◌, refl, ap, arith, Bytes, length, length-append,
  u32,
}
use tp5_borda_rojas.Protocol.Message.{Message}
use tp5_borda_rojas.Queue.{QueueApi}
use tp5_borda_rojas.Actuators.{Gpio}
use tp5_borda_rojas.App.{AppState}
use tp5_borda_rojas.App.Answers.{counted}
use tp5_borda_rojas.Parser.Stream.{feed}
use tp5_borda_rojas.Uart.{get_rx_irq_count, get_rx_drop_count}
use tp5_borda_rojas.Tasks.ParserTask.{get_byte_count, get_message_count, get_error_count}
use tp5_borda_rojas.Tasks.ParserTask.Laws.{IsWord, failures, parser_rounds-Follows}
use tp5_borda_rojas.Tasks.Intake.Laws.{held_bytes}
use tp5_borda_rojas.Tasks.Session.{AppEnv}
use tp5_borda_rojas.Tasks.Session.Laws.{counted_all, app_rounds-Replied}
use tp5_borda_rojas.Firmware.{System, ByteQueue, Reach, here, later, accepted}
use tp5_borda_rojas.Firmware.Flow.{Flow, bytes_in, messages_in}
use tp5_borda_rojas.Firmware.Flow.Laws.{Reach-Flow}
use tp5_borda_rojas.Firmware.Sized.{Lengths}
use tp5_borda_rojas.Firmware.Ready.{Ready, Ready-Flow}
use tp5_borda_rojas.Firmware.Turns.{
  Turn, unattached, dropped, queued, byte_received, byte_sent, byte_parsed, message_delivered,
  message_handled, reply_sent, command_sent, send_lost, reply_transmitted, command_applied,
  TaskTurn, task,
}
use tp5_borda_rojas.Firmware.Turns.Laws.{act-Turn}

rx_count-counted_all :
    (s : AppState) (ms : List Message)
    → s.rx_count < 2 ^ 32
    → (counted_all s ms).rx_count ≡ u32 (s.rx_count + length ms)
rx_count-counted_all s [] h = omega arith
rx_count-counted_all s (m ∷ ms) h =
    omega (arith, rx_count-counted_all (counted s m) ms (omega arith))

module _ (queues : (A : Type 0) → QueueApi A) (gpio : Gpio) (env : AppEnv) (n : Lengths)
    (start : System queues gpio) (ready : Ready queues gpio env n start) where
  abbrev State : Type 0
  State = System queues gpio

  abbrev pub irqs : State → ℕ
  irqs s = get_rx_irq_count (queues ℕ) s.uart

  abbrev pub drops : State → ℕ
  drops s = get_rx_drop_count (queues ℕ) s.uart

  -- Every interrupt has let its byte in, or has been counted as a drop.
  abbrev Arrivals : State → Bytes → Type 0
  Arrivals s bytes = u32 (irqs s + drops start) ≡ u32 (irqs start + drops s + length bytes)

  -- The tasks leave the counters of the interrupt alone.
  TaskTurn-counts :
      (s t : State)
      → TaskTurn queues gpio env s t
      → (t.uart.rx_irq_count ≡ s.uart.rx_irq_count) × (t.uart.rx_drop_count ≡ s.uart.rx_drop_count)
  TaskTurn-counts s t (byte_received b q q' free at h e) = rw e (refl, refl)
  TaskTurn-counts s t (byte_sent b q' held h e) = rw e (refl, refl)
  TaskTurn-counts s t (byte_parsed b q' free h e) = rw e (refl, refl)
  TaskTurn-counts s t (message_delivered m ms q' left h e) = rw e (refl, refl)
  TaskTurn-counts s t (message_handled m q' free h e) = rw e (refl, refl)
  TaskTurn-counts s t (send_lost x rest left no_reply no_order e) = rw e (refl, refl)
  TaskTurn-counts s t (reply_sent m rest q' left h e) = rw e (refl, refl)
  TaskTurn-counts s t (command_sent c rest q' left h e) = rw e (refl, refl)
  TaskTurn-counts s t (reply_transmitted m q' h e) = rw e (refl, refl)
  TaskTurn-counts s t (command_applied c q' h e) = rw e (refl, refl)

  Turn-Arrivals :
      (s t : State) (bytes b : Bytes)
      → Turn queues gpio env s t b
      → (q : ByteQueue queues gpio) → s.uart.rx_queue ≡ some q
      → Arrivals s bytes
      → Arrivals t (bytes ++ b)
  Turn-Arrivals s t bytes b (unattached free e) q at h = absurd (cc (free, at))
  Turn-Arrivals s t bytes b (dropped r full e) q at h =
      rw e (omega (arith, h, length-append bytes []))
  Turn-Arrivals s t bytes b (queued x r r' attached sent e) q at h =
      rw e (omega (arith, h, length-append bytes (x ∷ [])))
  Turn-Arrivals s t bytes b (task turn) q at h =
      omega (arith, h, TaskTurn-counts s t turn, length-append bytes [])

  flow :
      (s : State) (bytes : Bytes)
      → Reach queues gpio env start s bytes
      → Flow queues gpio env start s bytes
  flow s bytes r =
      Reach-Flow queues gpio env start s bytes (Ready-Flow queues gpio env n start ready) r

  Reach-Arrivals :
      (s : State) (bytes : Bytes) → Reach queues gpio env start s bytes → Arrivals s bytes
  Reach-Arrivals s bytes here = omega arith
  Reach-Arrivals s bytes (later u t before a r e) =
      let k = flow u before r in
      Turn-Arrivals u t before (accepted queues gpio u a) (act-Turn queues gpio env u t a e) k.queue
        k.bytes_flow.0 (Reach-Arrivals u before r)

  -- The bytes on their way to the parser, and the messages on their way to the application.
  abbrev pub bytes_waiting : State → ByteQueue queues gpio → ℕ
  bytes_waiting s q =
      length (bytes_in queues gpio env start s.parser_queue)
      + (length (held_bytes s.rx_held) + length (bytes_in queues gpio env start q))

  abbrev pub messages_waiting : State → ℕ
  messages_waiting s =
      length (messages_in queues gpio env start s.app_queue) + length s.parser_sends

  -- How far the counters have come since the start: the interrupts against the drops and the bytes
  -- that were let in, these against the bytes parsed, the messages parsed against those handled,
  -- and the errors against the bytes that have left the queues.
  pub record Counted (s : State) (bytes : Bytes) : Type 0 where
    pub queue : ByteQueue queues gpio
    pub attached : s.uart.rx_queue ≡ some queue
    pub interrupts : Arrivals s bytes
    pub bytes_parsed :
        u32 (get_byte_count s.parser + bytes_waiting s queue)
        ≡ u32 (get_byte_count start.parser + length bytes)
    pub messages_handled :
        u32 (s.app.rx_count + get_message_count start.parser + messages_waiting s)
        ≡ u32 (start.app.rx_count + get_message_count s.parser)
    pub consumed : Bytes
    pub parts :
        consumed
          ++ (bytes_in queues gpio env start s.parser_queue
              ++ (held_bytes s.rx_held ++ bytes_in queues gpio env start queue))
        ≡ bytes
    pub errors :
        get_error_count s.parser
        ≡ u32 (
            get_error_count start.parser
            + failures (feed start.parser.parser start.parser.message consumed).events)

  -- From a system that is ready, with 32-bit counters, whatever the order of the steps and modulo
  -- 2^32: every interrupt since the start has let a byte in or is counted as a drop; the bytes let
  -- in are those that the task of the parser has counted and those that still wait for it; the
  -- messages that it has counted are those that the application has counted and those that still
  -- wait; and the errors that it has counted are those that the parser reports on the bytes let in
  -- without those that still wait, in the queue of the interrupt, in the hand of `task_uart_rx` and
  -- in the queue of the parser.
  pub Reach-Counted :
      IsWord start.parser
      → start.app.rx_count < 2 ^ 32
      → (s : State) (bytes : Bytes) → Reach queues gpio env start s bytes
      → Counted s bytes
  Reach-Counted words word s bytes r =
      let k = flow s bytes r in
      let p = k.past in
      let follows = parser_rounds-Follows p.consumed start.parser words in
      let consumed = p.consumed in
      let input = bytes_in queues gpio env start s.parser_queue in
      let held = held_bytes s.rx_held in
      let isr = bytes_in queues gpio env start k.queue in
      let coming = messages_in queues gpio env start s.app_queue in
      let app : s.app ≡ counted_all start.app p.seen =
        rw k.handling_flow.0 at (app_rounds-Replied env p.seen 0 start.app).state in
      record {
        queue = k.queue;
        attached = k.bytes_flow.0;
        interrupts = Reach-Arrivals s bytes r;
        bytes_parsed = omega (
          arith,
          rw k.messages_flow at follows.bytes,
          ap length k.bytes_flow.1,
          length-append consumed (input ++ (held ++ isr)),
          length-append input (held ++ isr),
          length-append held isr,
        );
        messages_handled = omega (
          arith,
          rw k.messages_flow at follows.counted,
          ap length (rw k.messages_flow at follows.sent),
          length-append p.seen (coming ++ s.parser_sends),
          length-append coming s.parser_sends,
          ap (λ a. a.rx_count) app,
          rx_count-counted_all start.app p.seen word,
        );
        consumed = consumed;
        parts = k.bytes_flow.1;
        errors = rw k.messages_flow at follows.errors;
      }
