-- ===== src/Firmware/Measure.antt =====
-- firmware/app/tasks.c: how much work the tasks have left while no interrupt comes.
use tp5_borda_rojas.Handles.{g_uart_tx_queue, g_actuator_queue}
use tp5_borda_rojas.Base.{
  ℕ, ◌+◌, ◌*◌, ◌≤◌, ◌<◌, Option, none, some, List, [], ◌∷◌, ◌≡◌, inl, inr, ap, arith, length,
  length-append, All, Option-cases,
}
use tp5_borda_rojas.Protocol.Message.{Message}
use tp5_borda_rojas.Queue.{QueueApi}
use tp5_borda_rojas.Queue.Laws.{Sent}
use tp5_borda_rojas.Actuators.{ActuatorCommand, Gpio}
use tp5_borda_rojas.App.Sends.{length-handle_message}
use tp5_borda_rojas.Tasks.ParserTask.Laws.{length-parser_round}
use tp5_borda_rojas.Tasks.Intake.Laws.{held_bytes}
use tp5_borda_rojas.Tasks.Session.{AppEnv}
use tp5_borda_rojas.Firmware.{Action, IsTask, System, ByteQueue, act}
use tp5_borda_rojas.Firmware.Turns.{
  TaskTurn, byte_received, byte_sent, byte_parsed, message_delivered, message_handled, reply_sent,
  command_sent, send_lost, reply_transmitted, command_applied,
}
use tp5_borda_rojas.Firmware.Turns.Laws.{act-TaskTurn}

module _ (queues : (A : Type 0) → QueueApi A) (gpio : Gpio) where
  abbrev pub isr_load : Option (ByteQueue queues gpio) → ℕ
  isr_load none = 0
  isr_load (some q) = length (QueueApi.items (queues ℕ) q)

  -- The steps that are left at most: a byte passes two queues and may complete a message, a message is
  -- delivered, handled and leads to two sends, and what is sent is taken out once.
  abbrev pub work : System queues gpio → ℕ
  work s =
      9 * isr_load s.uart.rx_queue
      + 8 * length (held_bytes s.rx_held)
      + 7 * length (QueueApi.items (queues ℕ) s.parser_queue)
      + 6 * length s.parser_sends
      + 5 * length (QueueApi.items (queues Message) s.app_queue)
      + 2 * length s.app_sends
      + length (QueueApi.items (queues Message) s.tx_queue)
      + length (QueueApi.items (queues ActuatorCommand) s.actuator_queue)

  lengths_back :
      {A : Type 0} (q : QueueApi.Queue (queues A)) (a : A) (q' : QueueApi.Queue (queues A))
      → Sent (queues A) q a q'
      → length (QueueApi.items (queues A) q') ≡ length (QueueApi.items (queues A) q) + 1
  lengths_back q a q' h =
      omega (arith, ap length h.back, length-append (QueueApi.items (queues _) q) (a ∷ []))

module _ (queues : (A : Type 0) → QueueApi A) (gpio : Gpio) (env : AppEnv) where
  abbrev State : Type 0
  State = System queues gpio

  TaskTurn-work :
      (s t : State) → TaskTurn queues gpio env s t → work queues gpio t < work queues gpio s
  TaskTurn-work s t (byte_received b q q' free attached h e) = rw e (
      omega (
        arith,
        ap length h.out,
        ap (isr_load queues gpio) attached,
        ap (λ x. length (held_bytes x)) free,
      ))
  TaskTurn-work s t (byte_sent b q' held h e) =
      rw e (omega (arith, lengths_back queues gpio _ b q' h, ap (λ x. length (held_bytes x)) held))
  TaskTurn-work s t (byte_parsed b q' free h e) =
      rw e (omega (arith, ap length h.out, ap length free, length-parser_round s.parser b))
  TaskTurn-work s t (message_delivered m ms q' left h e) =
      rw e (omega (arith, lengths_back queues gpio _ m q' h, ap length left))
  TaskTurn-work s t (message_handled m q' free h e) = rw e (
      omega (
        arith,
        ap length h.out,
        ap length free,
        length-handle_message s.app (env.counters s.handled) env.garbage m g_uart_tx_queue
            g_actuator_queue,
      ))
  TaskTurn-work s t (send_lost x rest left no_reply no_order e) =
      rw e (omega (arith, ap length left))
  TaskTurn-work s t (reply_sent m rest q' left h e) =
      rw e (omega (arith, lengths_back queues gpio _ m q' h, ap length left))
  TaskTurn-work s t (command_sent c rest q' left h e) =
      rw e (omega (arith, lengths_back queues gpio _ c q' h, ap length left))
  TaskTurn-work s t (reply_transmitted m q' h e) = rw e (omega (arith, ap length h.out))
  TaskTurn-work s t (command_applied c q' h e) = rw e (omega (arith, ap length h.out))

  -- A step of a task makes the work less.
  pub act-work :
      (s t : State) (a : Action)
      → IsTask a
      → act queues gpio env s a ≡ some t
      → work queues gpio t < work queues gpio s
  act-work s t a h e = TaskTurn-work s t (act-TaskTurn queues gpio env s t a h e)

  -- Steps one after another; `none` where one of them has to wait.
  unfoldable pub act_all : State → List Action → Option State
  act_all s [] = some s
  act_all s (a ∷ as') = elim (act queues gpio env s a) [ none ↦ none | some t ↦ act_all t as' ]

  -- While no interrupt comes the tasks come to an end, in whatever order they run: the number of their
  -- steps and the work that is left come to at most the work that there was before.
  pub act_all-work :
      (actions : List Action) (s t : State)
      → All IsTask actions
      → act_all s actions ≡ some t
      → length actions + work queues gpio t ≤ work queues gpio s
  unfolding act_all
  act_all-work [] s t h e = let same : s ≡ t = cc in rw same (omega arith)
  act_all-work (a ∷ rest) s t (h, hs) e = elim (Option-cases (act queues gpio env s a)) [
    | inl waits ↦ absurd (cc (rw (waits, act_all) at e))
    | inr (u, made) ↦
        omega (arith, act-work s u a h made, act_all-work rest u t hs (rw (made, act_all) at e))
  ]
