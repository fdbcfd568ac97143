-- ===== src/Tasks/Intake.antt =====
-- firmware/app/tasks.c and firmware/drivers/uart_comm.c: the way of a byte from `usart1_isr` through the two
-- queues and `task_uart_rx` to `task_parser`, in any order in which the interrupt and the two tasks run.
pub mod Laws
use tp5_borda_rojas.Base.{ℕ, true, Option, none, some, List, [], ◌∷◌, ◌++◌, Bytes, u8}
use tp5_borda_rojas.Protocol.Message.{Message}
use tp5_borda_rojas.Queue.{QueueApi}
use tp5_borda_rojas.Uart.{Uart, usart1_isr}
use tp5_borda_rojas.Tasks.ParserTask.{ParserTask, parser_round}

-- What happens next: an interrupt with a word in the data register; `task_uart_rx` takes a byte, or goes on
-- with its `xQueueSend`; `task_parser` takes a byte. A call that has to wait changes nothing.
pub data Action : Type 0 where
  interrupt : ℕ → Action
  rx_receive rx_send parse : Action

module _ (api : QueueApi ℕ) where
  open api use {Queue, send, receive}

  -- `held` is the byte of `task_uart_rx` between its two calls, and `sent` what went to `g_app_queue`.
  pub record Intake : Type 0 where
    pub uart : Uart api
    pub held : Option ℕ
    pub parser_queue : Queue
    pub task : ParserTask
    pub sent : List Message

  abbrev taken : Intake → Option (ℕ × Queue) → Intake
  taken x none = x
  taken x (some (b, q)) = record x { held = some b; uart = record (x.uart) { rx_queue = some q } }

  abbrev receive_byte : Intake → Option ℕ → Option Queue → Intake
  receive_byte x none (some q) = taken x (receive q)
  receive_byte x _ _ = x

  abbrev sent_on : Intake → Option Queue → Intake
  sent_on x none = x
  sent_on x (some q) = record x { held = none; parser_queue = q }

  abbrev send_byte : Intake → Option ℕ → Intake
  send_byte x none = x
  send_byte x (some b) = sent_on x (send x.parser_queue b)

  abbrev parsed : Intake → Option (ℕ × Queue) → Intake
  parsed x none = x
  parsed x (some (b, q)) = record x {
    parser_queue = q;
    task = (parser_round x.task b).0;
    sent = x.sent ++ (parser_round x.task b).1;
  }

  unfoldable pub step : Intake → Action → Intake
  step x (interrupt w) = record x { uart = usart1_isr api x.uart true w }
  step x rx_receive = receive_byte x x.held x.uart.rx_queue
  step x rx_send = send_byte x x.held
  step x parse = parsed x (receive x.parser_queue)

  unfoldable pub run : Intake → List Action → Intake
  run x [] = x
  run x (a ∷ more) = run (step x a) more

  -- The bytes for which the queue of the interrupt has room.
  abbrev if_sent : ℕ → Option Queue → Bytes
  if_sent b none = []
  if_sent b (some q) = b ∷ []

  abbrev if_attached : ℕ → Option Queue → Bytes
  if_attached b none = []
  if_attached b (some q) = if_sent b (send q b)

  abbrev pub accepted_now : Intake → Action → Bytes
  accepted_now x (interrupt w) = if_attached (u8 w) x.uart.rx_queue
  accepted_now x _ = []

  unfoldable pub accepted : Intake → List Action → Bytes
  accepted x [] = []
  accepted x (a ∷ more) = accepted_now x a ++ accepted (step x a) more
