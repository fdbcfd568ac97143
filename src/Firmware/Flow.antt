-- ===== src/Firmware/Flow.antt =====
-- firmware/app/tasks.c: where each byte, message, reply and command is on its way through the system.
pub mod Laws
use tp5_borda_rojas.Base.{
  ℕ, ◌+◌, suc, true, Option, none, some, List, [], ◌∷◌, ◌++◌, append_assoc, append-nil, ◌≡◌, inl,
  inr, refl, sym, ap, ◌∙◌, arith, Bytes, length, length-append,
}
use tp5_borda_rojas.Protocol.Message.{Message}
use tp5_borda_rojas.Queue.{QueueApi}
use tp5_borda_rojas.Queue.Laws.{Received, Sent}
use tp5_borda_rojas.Actuators.{ActuatorCommand, Gpio, apply_command}
use tp5_borda_rojas.App.{AppState, Send, send_message, send_command, handle_message}
use tp5_borda_rojas.Uart.{Uart}
use tp5_borda_rojas.Tasks.ParserTask.{ParserTask, parser_round, parser_rounds}
use tp5_borda_rojas.Tasks.Intake.Laws.{held_bytes, parser_rounds-snoc}
use tp5_borda_rojas.Tasks.UartTx.{tx_round}
use tp5_borda_rojas.Tasks.Session.{AppEnv, app_rounds, tx_rounds}
use tp5_borda_rojas.Tasks.Session.History.{
  app_rounds-snoc, tx_buffers, tx_rounds-snoc, tx_buffers-snoc, replies_in, orders_in,
  replies_in-append, orders_in-append, apply_all, apply_all-snoc,
}
use tp5_borda_rojas.Firmware.{
  System, ByteQueue, MessageQueue, CommandQueue, Reach, here, later, accepted,
}
use tp5_borda_rojas.Firmware.Turns.Laws.{act-Turn}
use tp5_borda_rojas.Firmware.Turns.{
  Turn, unattached, dropped, queued, byte_received, byte_sent, byte_parsed, message_delivered,
  message_handled, reply_sent, command_sent, send_lost, reply_transmitted, command_applied,
  TaskTurn, task, handling,
}

-- What has been done so far: the bytes parsed, the messages handled with all that they sent, the replies put
-- on the line, and the commands applied.
pub record Past : Type 0 where
  pub consumed : Bytes
  pub seen : List Message
  pub sends : List Send
  pub sent : List Message
  pub applied : List ActuatorCommand

module _ (queues : (A : Type 0) → QueueApi A) (gpio : Gpio) (env : AppEnv)
    (start : System queues gpio) where
  abbrev State : Type 0
  State = System queues gpio

  abbrev pub bytes_in : ByteQueue queues gpio → Bytes
  bytes_in q = QueueApi.items (queues ℕ) q

  abbrev pub messages_in : MessageQueue queues gpio → List Message
  messages_in q = QueueApi.items (queues Message) q

  abbrev pub commands_in : CommandQueue queues gpio → List ActuatorCommand
  commands_in q = QueueApi.items (queues ActuatorCommand) q

  -- From the interrupt to the parser.
  abbrev pub BytesFlow : Past → State → ByteQueue queues gpio → Bytes → Type 0
  BytesFlow p s q bytes =
      (s.uart.rx_queue ≡ some q)
      × (p.consumed ++ (bytes_in s.parser_queue ++ (held_bytes s.rx_held ++ bytes_in q)) ≡ bytes)

  -- From the parser to the application.
  abbrev pub MessagesFlow : Past → State → Type 0
  MessagesFlow p s =
      parser_rounds start.parser p.consumed
      ≡ (s.parser, p.seen ++ (messages_in s.app_queue ++ s.parser_sends))

  -- The application, and from there to the line and to the pin.
  abbrev pub HandlingFlow : Past → State → Type 0
  HandlingFlow p s =
      (app_rounds env 0 start.app p.seen ≡ (s.app, p.sends)) × (s.handled ≡ length p.seen)

  abbrev pub RepliesFlow : Past → State → Type 0
  RepliesFlow p s =
      replies_in p.sends ≡ p.sent ++ (messages_in s.tx_queue ++ replies_in s.app_sends)

  abbrev pub CommandsFlow : Past → State → Type 0
  CommandsFlow p s =
      orders_in p.sends ≡ p.applied ++ (commands_in s.actuator_queue ++ orders_in s.app_sends)

  abbrev pub LineFlow : Past → State → Type 0
  LineFlow p s =
      (s.line ≡ start.line ++ tx_rounds p.sent start.tx_frame start.tx_length)
      × (s.tx_frame ≡ (tx_buffers p.sent start.tx_frame start.tx_length).0)
      × (s.tx_length ≡ (tx_buffers p.sent start.tx_frame start.tx_length).1)

  abbrev pub PinFlow : Past → State → Type 0
  PinFlow p s = s.pin ≡ apply_all gpio p.applied start.pin

  -- All of them, for the bytes that the interrupt has accepted.
  pub record Flow (s : State) (bytes : Bytes) : Type 0 where
    pub past : Past
    pub queue : ByteQueue queues gpio
    pub bytes_flow : BytesFlow past s queue bytes
    pub messages_flow : MessagesFlow past s
    pub handling_flow : HandlingFlow past s
    pub replies_flow : RepliesFlow past s
    pub commands_flow : CommandsFlow past s
    pub line_flow : LineFlow past s
    pub pin_flow : PinFlow past s
