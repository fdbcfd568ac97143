-- ===== src/Firmware.antt =====
-- firmware/app/tasks.c with firmware/drivers/uart_comm.c: all tasks, the five queues and the interrupt. A task
-- stands between two calls of the kernel; what it still has to send is part of the state, so that a task whose
-- `xQueueSend` waits is a task that cannot go on. Any task that can go on may be the next to run.
pub mod Turns
pub mod Flow
pub mod Sized
pub mod Measure
pub mod Waits
pub mod Stuck
pub mod Settle
pub mod Ready
pub mod Counted
pub mod Led
pub mod Refine
pub mod Outside
pub mod Finish
use tp5_borda_rojas.Handles.{g_uart_tx_queue, g_actuator_queue}
use tp5_borda_rojas.Base.{
  ℕ, ◌+◌, suc, true, Option, none, some, List, [], ◌∷◌, ◌++◌, ◌≡◌, Bytes, u8, ◌==◌, if◌then◌else◌,
}
use tp5_borda_rojas.Config.{max_frame_size}
use tp5_borda_rojas.Protocol.Message.{Message}
use tp5_borda_rojas.Protocol.Encode.{Encoded, encode_frame}
use tp5_borda_rojas.Queue.{QueueApi}
use tp5_borda_rojas.Actuators.{ActuatorCommand, Gpio, apply_command}
use tp5_borda_rojas.App.{AppState, Send, send_message, send_command, Handled, handle_message}
use tp5_borda_rojas.Uart.{Uart, usart1_isr}
use tp5_borda_rojas.Tasks.ParserTask.{ParserTask, parser_round}
use tp5_borda_rojas.Tasks.UartTx.{tx_round}
use tp5_borda_rojas.Tasks.Session.{AppEnv, kept}

-- The next to run: the interrupt, with a word in the data register; `task_uart_rx` or `task_parser`, which
-- receives a byte or goes on with its `xQueueSend`; `task_app`, which handles a message or makes its next
-- `xQueueSend`; `task_uart_tx`; `task_actuators`.
pub data Action : Type 0 where
  interrupt : ℕ → Action
  rx_receive rx_send parse parser_send handle app_send transmit actuate : Action

abbrev pub IsTask : Action → Type 0
IsTask (interrupt w) = ⊥
IsTask rx_receive = Unit
IsTask rx_send = Unit
IsTask parse = Unit
IsTask parser_send = Unit
IsTask handle = Unit
IsTask app_send = Unit
IsTask transmit = Unit
IsTask actuate = Unit

module _ (queues : (A : Type 0) → QueueApi A) (gpio : Gpio) where
  open gpio use {Pin}

  abbrev pub ByteQueue : Type 0
  ByteQueue = QueueApi.Queue (queues ℕ)

  abbrev pub MessageQueue : Type 0
  MessageQueue = QueueApi.Queue (queues Message)

  abbrev pub CommandQueue : Type 0
  CommandQueue = QueueApi.Queue (queues ActuatorCommand)

  -- `g_uart_rx_isr_queue` is the queue of the driver. `rx_held`, `parser_sends` and `app_sends` are what
  -- these tasks still have to send, `handled` the number of messages that `task_app` has received, `line` the
  -- bytes that were put on the line.
  pub record System : Type 0 where
    pub uart : Uart (queues ℕ)
    pub rx_held : Option ℕ
    pub parser_queue : ByteQueue
    pub parser : ParserTask
    pub parser_sends : List Message
    pub app_queue : MessageQueue
    pub app : AppState
    pub app_sends : List Send
    pub handled : ℕ
    pub tx_queue : MessageQueue
    pub tx_frame : Bytes
    pub tx_length : ℕ
    pub line : Bytes
    pub actuator_queue : CommandQueue
    pub pin : Pin

  abbrev pub taken : System → Option (ℕ × ByteQueue) → Option System
  taken s none = none
  taken s (some (b, q)) =
      some (record s { rx_held = some b; uart = record (s.uart) { rx_queue = some q } })

  abbrev pub receive_byte : System → Option ℕ → Option ByteQueue → Option System
  receive_byte s none (some q) = taken s (QueueApi.receive (queues ℕ) q)
  receive_byte s none none = none
  receive_byte s (some b) q = none

  abbrev pub passed_on : System → Option ByteQueue → Option System
  passed_on s none = none
  passed_on s (some q) = some (record s { rx_held = none; parser_queue = q })

  abbrev pub send_byte : System → Option ℕ → Option System
  send_byte s none = none
  send_byte s (some b) = passed_on s (QueueApi.send (queues ℕ) s.parser_queue b)

  abbrev pub parsed : System → List Message → Option (ℕ × ByteQueue) → Option System
  parsed s [] none = none
  parsed s [] (some (b, q)) = some (record s {
    parser_queue = q;
    parser = (parser_round s.parser b).0;
    parser_sends = (parser_round s.parser b).1;
  })
  parsed s (m ∷ ms) r = none

  abbrev pub delivered : System → List Message → Option MessageQueue → Option System
  delivered s ms none = none
  delivered s ms (some q) = some (record s { app_queue = q; parser_sends = ms })

  abbrev pub deliver : System → List Message → Option System
  deliver s [] = none
  deliver s (m ∷ ms) = delivered s ms (QueueApi.send (queues Message) s.app_queue m)

  abbrev pub handled_by : System → MessageQueue → Handled → System
  handled_by s q h = record s {
    app_queue = q;
    app = h.state;
    app_sends = h.sends;
    handled = suc s.handled;
  }

  abbrev pub handle_next :
      AppEnv → System → List Send → Option (Message × MessageQueue) → Option System
  handle_next env s [] none = none
  handle_next env s [] (some (m, q)) = some (
      handled_by s q (
        handle_message s.app (env.counters s.handled) env.garbage (some m) g_uart_tx_queue
          g_actuator_queue))
  handle_next env s (x ∷ xs) r = none

  abbrev pub replied : System → List Send → Option MessageQueue → Option System
  replied s rest none = none
  replied s rest (some q) = some (record s { tx_queue = q; app_sends = rest })

  abbrev pub commanded : System → List Send → Option CommandQueue → Option System
  commanded s rest none = none
  commanded s rest (some q) = some (record s { actuator_queue = q; app_sends = rest })

  -- In C a send with the handle of a queue of other items copies the wrong bytes into that queue,
  -- and one with another handle fails. Neither is modelled further: what is sent so reaches no
  -- reader, as a message or a command, and is lost here.
  abbrev pub lost : System → List Send → Option System
  lost s rest = some (record s { app_sends = rest })

  abbrev pub send_next : System → List Send → Option System
  send_next s [] = none
  send_next s (send_message q m ∷ rest) =
      if q == g_uart_tx_queue
      then replied s rest (QueueApi.send (queues Message) s.tx_queue m)
      else lost s rest
  send_next s (send_command q c ∷ rest) =
      if q == g_actuator_queue
      then commanded s rest (QueueApi.send (queues ActuatorCommand) s.actuator_queue c)
      else lost s rest

  abbrev pub transmitted : System → Option (Message × MessageQueue) → Option System
  transmitted s none = none
  transmitted s (some (m, q)) = some (record s {
    tx_queue = q;
    line = s.line ++ tx_round m s.tx_frame s.tx_length;
    tx_frame =
        kept s.tx_frame
          (encode_frame (some m) (some s.tx_frame) max_frame_size (some s.tx_length)).frame;
    tx_length =
        kept s.tx_length
          (encode_frame (some m) (some s.tx_frame) max_frame_size (some s.tx_length)).frame_length;
  })

  abbrev pub actuated : System → Option (ActuatorCommand × CommandQueue) → Option System
  actuated s none = none
  actuated s (some (c, q)) =
      some (record s { actuator_queue = q; pin = apply_command gpio (some c) s.pin })

  -- `none` where that task has to wait.
  unfoldable pub act : AppEnv → System → Action → Option System
  act env s (interrupt w) = some (record s { uart = usart1_isr (queues ℕ) s.uart true w })
  act env s rx_receive = receive_byte s s.rx_held s.uart.rx_queue
  act env s rx_send = send_byte s s.rx_held
  act env s parse = parsed s s.parser_sends (QueueApi.receive (queues ℕ) s.parser_queue)
  act env s parser_send = deliver s s.parser_sends
  act env s handle = handle_next env s s.app_sends (QueueApi.receive (queues Message) s.app_queue)
  act env s app_send = send_next s s.app_sends
  act env s transmit = transmitted s (QueueApi.receive (queues Message) s.tx_queue)
  act env s actuate = actuated s (QueueApi.receive (queues ActuatorCommand) s.actuator_queue)

  -- The byte that the interrupt puts into its queue, if it has room.
  abbrev if_sent : ℕ → Option ByteQueue → Bytes
  if_sent b none = []
  if_sent b (some q) = b ∷ []

  abbrev if_attached : ℕ → Option ByteQueue → Bytes
  if_attached b none = []
  if_attached b (some q) = if_sent b (QueueApi.send (queues ℕ) q b)

  abbrev pub accepted : System → Action → Bytes
  accepted s (interrupt w) = if_attached (u8 w) s.uart.rx_queue
  accepted s _ = []

  -- The states that can come after `start`, with the bytes that the interrupt accepted on the way.
  pub data Reach (env : AppEnv) (start : System) : System → Bytes → Type 0 where
    here : Reach env start start []
    later :
        (s t : System) (bytes : Bytes) (a : Action)
        → Reach env start s bytes
        → act env s a ≡ some t
        → Reach env start t (bytes ++ accepted s a)
