-- ===== src/Firmware/Turns/Laws.antt =====
-- firmware/app/tasks.c: every step of the system is one of the turns.
use tp5_borda_rojas.Handles.{g_uart_tx_queue, g_actuator_queue}
use tp5_borda_rojas.Base.{
  ℕ, Option, none, some, List, [], ◌∷◌, ◌≡◌, inl, inr, refl, u8, ◌==◌, ==_iff, Bool-cases,
}
use tp5_borda_rojas.Protocol.Message.{Message}
use tp5_borda_rojas.Queue.{QueueApi}
use tp5_borda_rojas.Queue.Laws.{receive_cases, send_cases}
use tp5_borda_rojas.Actuators.{ActuatorCommand, Gpio}
use tp5_borda_rojas.App.{Send, send_message, send_command}
use tp5_borda_rojas.Uart.{usart1_isr}
use tp5_borda_rojas.Tasks.Session.{AppEnv}
use tp5_borda_rojas.Firmware.{
  Action, IsTask, interrupt, rx_receive, rx_send, parse, parser_send, handle, app_send, transmit,
  actuate, System, ByteQueue, act, accepted, receive_byte, send_byte, parsed, deliver, handle_next,
  send_next,
}
use tp5_borda_rojas.Firmware.Turns.{
  TaskTurn, Turn, unattached, dropped, queued, task, byte_received, byte_sent, byte_parsed,
  message_delivered, message_handled, reply_sent, command_sent, send_lost, reply_transmitted,
  command_applied,
}

module _ (queues : (A : Type 0) → QueueApi A) (gpio : Gpio) (env : AppEnv) where
  abbrev State : Type 0
  State = System queues gpio

  module _ (s t : State) where
    interrupt-Turn :
        (w : ℕ) (r : Option (ByteQueue queues gpio))
        → s.uart.rx_queue ≡ r
        → act queues gpio env s (interrupt w) ≡ some t
        → Turn queues gpio env s t (accepted queues gpio s (interrupt w))
    unfolding act usart1_isr
    interrupt-Turn w none here e = simp here (unattached here (cc (simp here at e)))
    interrupt-Turn w (some q) here e = elim (send_cases (queues ℕ) q (u8 w)) [
      | inl (full, h) ↦ simp (here, full) (dropped q here (cc (simp (here, full) at e)))
      | inr (q', sent, h) ↦
          simp (here, sent) (queued (u8 w) q q' here h (cc (simp (here, sent) at e)))
    ]

    receive_byte-TaskTurn :
        (h : Option ℕ) (r : Option (ByteQueue queues gpio))
        → s.rx_held ≡ h
        → s.uart.rx_queue ≡ r
        → receive_byte queues gpio s h r ≡ some t
        → TaskTurn queues gpio env s t
    receive_byte-TaskTurn none (some q) free at e = elim (receive_cases (queues ℕ) q) [
      | inl (empty, h) ↦ absurd (cc (rw empty at e))
      | inr (b, q', r, h) ↦ byte_received b q q' free at h (cc (rw r at e))
    ]
    receive_byte-TaskTurn none none free at e = absurd (cc)
    receive_byte-TaskTurn (some b) r free at e = absurd (cc)

    send_byte-TaskTurn :
        (h : Option ℕ)
        → s.rx_held ≡ h
        → send_byte queues gpio s h ≡ some t
        → TaskTurn queues gpio env s t
    send_byte-TaskTurn none held e = absurd (cc)
    send_byte-TaskTurn (some b) held e = elim (send_cases (queues ℕ) s.parser_queue b) [
      | inl (full, h) ↦ absurd (cc (rw full at e))
      | inr (q', r, h) ↦ byte_sent b q' held h (cc (rw r at e))
    ]

    parsed-TaskTurn :
        (ms : List Message)
        → s.parser_sends ≡ ms
        → parsed queues gpio s ms (QueueApi.receive (queues ℕ) s.parser_queue) ≡ some t
        → TaskTurn queues gpio env s t
    parsed-TaskTurn [] free e = elim (receive_cases (queues ℕ) s.parser_queue) [
      | inl (empty, h) ↦ absurd (cc (rw empty at e))
      | inr (b, q', r, h) ↦ byte_parsed b q' free h (cc (rw r at e))
    ]
    parsed-TaskTurn (m ∷ ms) free e = absurd (cc)

    deliver-TaskTurn :
        (ms : List Message)
        → s.parser_sends ≡ ms
        → deliver queues gpio s ms ≡ some t
        → TaskTurn queues gpio env s t
    deliver-TaskTurn [] left e = absurd (cc)
    deliver-TaskTurn (m ∷ ms) left e = elim (send_cases (queues Message) s.app_queue m) [
      | inl (full, h) ↦ absurd (cc (rw full at e))
      | inr (q', r, h) ↦ message_delivered m ms q' left h (cc (rw r at e))
    ]

    handle_next-TaskTurn :
        (xs : List Send)
        → s.app_sends ≡ xs
        → handle_next queues gpio env s xs (QueueApi.receive (queues Message) s.app_queue) ≡ some t
        → TaskTurn queues gpio env s t
    handle_next-TaskTurn [] free e = elim (receive_cases (queues Message) s.app_queue) [
      | inl (empty, h) ↦ absurd (cc (rw empty at e))
      | inr (m, q', r, h) ↦ message_handled m q' free h (cc (rw r at e))
    ]
    handle_next-TaskTurn (x ∷ xs) free e = absurd (cc)

    send_next-TaskTurn :
        (xs : List Send)
        → s.app_sends ≡ xs
        → send_next queues gpio s xs ≡ some t
        → TaskTurn queues gpio env s t
    send_next-TaskTurn [] left e = absurd (cc)
    send_next-TaskTurn (send_message h m ∷ rest) left e = elim (Bool-cases (h == g_uart_tx_queue)) [
      | inl here ↦
          let same : h ≡ g_uart_tx_queue = (==_iff _ _).0 here in
          elim (send_cases (queues Message) s.tx_queue m) [
            | inl (full, k) ↦ absurd (cc (rw (here, full) at e))
            | inr (q', r, k) ↦ reply_sent m rest q' (rw same at left) k (cc (rw (here, r) at e))
          ]
      | inr other ↦ send_lost (send_message h m) rest left (rw other) refl (cc (rw other at e))
    ]
    send_next-TaskTurn (send_command h c ∷ rest) left e =
        elim (Bool-cases (h == g_actuator_queue)) [
          | inl here ↦
              let same : h ≡ g_actuator_queue = (==_iff _ _).0 here in
              elim (send_cases (queues ActuatorCommand) s.actuator_queue c) [
                | inl (full, k) ↦ absurd (cc (rw (here, full) at e))
                | inr (q', r, k) ↦
                    command_sent c rest q' (rw same at left) k (cc (rw (here, r) at e))
              ]
          | inr other ↦ send_lost (send_command h c) rest left refl (rw other) (cc (rw other at e))
        ]

    transmit-TaskTurn : act queues gpio env s transmit ≡ some t → TaskTurn queues gpio env s t
    unfolding act
    transmit-TaskTurn e = elim (receive_cases (queues Message) s.tx_queue) [
      | inl (empty, h) ↦ absurd (cc (rw empty at e))
      | inr (m, q', r, h) ↦ reply_transmitted m q' h (cc (rw r at e))
    ]

    actuate-TaskTurn : act queues gpio env s actuate ≡ some t → TaskTurn queues gpio env s t
    unfolding act
    actuate-TaskTurn e = elim (receive_cases (queues ActuatorCommand) s.actuator_queue) [
      | inl (empty, h) ↦ absurd (cc (rw empty at e))
      | inr (c, q', r, h) ↦ command_applied c q' h (cc (rw r at e))
    ]

    -- The actions of the tasks.
    pub act-TaskTurn :
        (a : Action) → IsTask a → act queues gpio env s a ≡ some t → TaskTurn queues gpio env s t
    unfolding act
    act-TaskTurn (interrupt w) h e = absurd h
    act-TaskTurn rx_receive h e = receive_byte-TaskTurn s.rx_held s.uart.rx_queue refl refl e
    act-TaskTurn rx_send h e = send_byte-TaskTurn s.rx_held refl e
    act-TaskTurn parse h e = parsed-TaskTurn s.parser_sends refl e
    act-TaskTurn parser_send h e = deliver-TaskTurn s.parser_sends refl e
    act-TaskTurn handle h e = handle_next-TaskTurn s.app_sends refl e
    act-TaskTurn app_send h e = send_next-TaskTurn s.app_sends refl e
    act-TaskTurn transmit h e = transmit-TaskTurn e
    act-TaskTurn actuate h e = actuate-TaskTurn e

    -- Every step that a task or the interrupt makes is one of these turns.
    pub act-Turn :
        (a : Action)
        → act queues gpio env s a ≡ some t
        → Turn queues gpio env s t (accepted queues gpio s a)
    act-Turn (interrupt w) e = interrupt-Turn w s.uart.rx_queue refl e
    act-Turn rx_receive e = task (act-TaskTurn rx_receive tt e)
    act-Turn rx_send e = task (act-TaskTurn rx_send tt e)
    act-Turn parse e = task (act-TaskTurn parse tt e)
    act-Turn parser_send e = task (act-TaskTurn parser_send tt e)
    act-Turn handle e = task (act-TaskTurn handle tt e)
    act-Turn app_send e = task (act-TaskTurn app_send tt e)
    act-Turn transmit e = task (act-TaskTurn transmit tt e)
    act-Turn actuate e = task (act-TaskTurn actuate tt e)
