-- ===== src/Firmware/Turns.antt =====
-- firmware/app/tasks.c: what a step of the system does, as a relation between the states before and after.
pub mod Laws
use tp5_borda_rojas.Handles.{g_uart_tx_queue, g_actuator_queue}
use tp5_borda_rojas.Base.{
  ℕ, ◌+◌, suc, true, Option, none, some, List, [], ◌∷◌, ◌++◌, ◌≡◌, inl, inr, refl, sym, Bytes, u8,
  u32,
}
use tp5_borda_rojas.Config.{max_frame_size}
use tp5_borda_rojas.Protocol.Message.{Message}
use tp5_borda_rojas.Protocol.Encode.{Encoded, encode_frame}
use tp5_borda_rojas.Queue.{QueueApi}
use tp5_borda_rojas.Queue.Laws.{Received, Sent, receive_cases, send_cases}
use tp5_borda_rojas.Actuators.{ActuatorCommand, Gpio, apply_command}
use tp5_borda_rojas.App.{AppState, Send, send_message, send_command, Handled, handle_message}
use tp5_borda_rojas.Uart.{Uart, usart1_isr}
use tp5_borda_rojas.Tasks.ParserTask.{ParserTask, parser_round}
use tp5_borda_rojas.Tasks.UartTx.{tx_round}
use tp5_borda_rojas.Tasks.Session.{AppEnv, kept}
use tp5_borda_rojas.Tasks.Session.History.{replies_in, orders_in}
use tp5_borda_rojas.Firmware.{
  Action, IsTask, interrupt, rx_receive, rx_send, parse, parser_send, handle, app_send, transmit,
  actuate, System, ByteQueue, MessageQueue, CommandQueue, act, accepted, taken, receive_byte,
  passed_on, send_byte, parsed, delivered, deliver, handled_by, handle_next, replied, commanded,
  send_next, transmitted, actuated,
}

module _ (queues : (A : Type 0) → QueueApi A) (gpio : Gpio) (env : AppEnv) where
  abbrev State : Type 0
  State = System queues gpio

  -- What `app_handle_message` does in a round of `task_app`.
  abbrev pub handling : State → Message → Handled
  handling s m =
      handle_message s.app (env.counters s.handled) env.garbage (some m) g_uart_tx_queue
        g_actuator_queue

  abbrev pub encoded : State → Message → Encoded
  encoded s m = encode_frame (some m) (some s.tx_frame) max_frame_size (some s.tx_length)

  -- A step of a task.
  pub data TaskTurn (s t : State) : Type 0 where
    byte_received :
        (b : ℕ) (q q' : ByteQueue queues gpio)
        → s.rx_held ≡ none
        → s.uart.rx_queue ≡ some q
        → Received (queues ℕ) q b q'
        → t ≡ record s { rx_held = some b; uart = record (s.uart) { rx_queue = some q' } }
        → TaskTurn s t
    byte_sent :
        (b : ℕ) (q' : ByteQueue queues gpio)
        → s.rx_held ≡ some b
        → Sent (queues ℕ) s.parser_queue b q'
        → t ≡ record s { rx_held = none; parser_queue = q' }
        → TaskTurn s t
    byte_parsed :
        (b : ℕ) (q' : ByteQueue queues gpio)
        → s.parser_sends ≡ []
        → Received (queues ℕ) s.parser_queue b q'
        → t ≡ record s {
          parser_queue = q';
          parser = (parser_round s.parser b).0;
          parser_sends = (parser_round s.parser b).1;
        }
        → TaskTurn s t
    message_delivered :
        (m : Message) (ms : List Message) (q' : MessageQueue queues gpio)
        → s.parser_sends ≡ m ∷ ms
        → Sent (queues Message) s.app_queue m q'
        → t ≡ record s { app_queue = q'; parser_sends = ms }
        → TaskTurn s t
    message_handled :
        (m : Message) (q' : MessageQueue queues gpio)
        → s.app_sends ≡ []
        → Received (queues Message) s.app_queue m q'
        → t ≡ handled_by queues gpio s q' (handling s m)
        → TaskTurn s t
    reply_sent :
        (m : Message) (rest : List Send) (q' : MessageQueue queues gpio)
        → s.app_sends ≡ send_message g_uart_tx_queue m ∷ rest
        → Sent (queues Message) s.tx_queue m q'
        → t ≡ record s { tx_queue = q'; app_sends = rest }
        → TaskTurn s t
    command_sent :
        (c : ActuatorCommand) (rest : List Send) (q' : CommandQueue queues gpio)
        → s.app_sends ≡ send_command g_actuator_queue c ∷ rest
        → Sent (queues ActuatorCommand) s.actuator_queue c q'
        → t ≡ record s { actuator_queue = q'; app_sends = rest }
        → TaskTurn s t
    send_lost :
        (x : Send) (rest : List Send)
        → s.app_sends ≡ x ∷ rest
        → replies_in (x ∷ rest) ≡ replies_in rest
        → orders_in (x ∷ rest) ≡ orders_in rest
        → t ≡ record s { app_sends = rest }
        → TaskTurn s t
    reply_transmitted :
        (m : Message) (q' : MessageQueue queues gpio)
        → Received (queues Message) s.tx_queue m q'
        → t ≡ record s {
          tx_queue = q';
          line = s.line ++ tx_round m s.tx_frame s.tx_length;
          tx_frame = kept s.tx_frame (encoded s m).frame;
          tx_length = kept s.tx_length (encoded s m).frame_length;
        }
        → TaskTurn s t
    command_applied :
        (c : ActuatorCommand) (q' : CommandQueue queues gpio)
        → Received (queues ActuatorCommand) s.actuator_queue c q'
        → t ≡ record s { actuator_queue = q'; pin = apply_command gpio (some c) s.pin }
        → TaskTurn s t

  -- A step of a task or of the interrupt, with the bytes that it lets in.
  pub data Turn (s t : State) : Bytes → Type 0 where
    unattached :
        s.uart.rx_queue ≡ none
        → t ≡ record s { uart = record (s.uart) { rx_irq_count = u32 (s.uart.rx_irq_count + 1) } }
        → Turn s t []
    dropped :
        (q : ByteQueue queues gpio)
        → s.uart.rx_queue ≡ some q
        → t ≡ record s {
          uart = record (s.uart) {
            rx_irq_count = u32 (s.uart.rx_irq_count + 1);
            rx_drop_count = u32 (s.uart.rx_drop_count + 1);
          };
        }
        → Turn s t []
    queued :
        (b : ℕ) (q q' : ByteQueue queues gpio)
        → s.uart.rx_queue ≡ some q
        → Sent (queues ℕ) q b q'
        → t ≡ record s {
          uart = record (s.uart) {
            rx_queue = some q';
            rx_irq_count = u32 (s.uart.rx_irq_count + 1);
          };
        }
        → Turn s t (b ∷ [])
    task : TaskTurn s t → Turn s t []
