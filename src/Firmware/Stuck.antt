-- ===== src/Firmware/Stuck.antt =====
-- firmware/app/tasks.c: when no task can go on.
use tp5_borda_rojas.Base.{ℕ, none, some, [], ◌≡◌}
use tp5_borda_rojas.Protocol.Message.{Message}
use tp5_borda_rojas.Queue.{QueueApi}
use tp5_borda_rojas.Actuators.{ActuatorCommand, Gpio}
use tp5_borda_rojas.Tasks.Session.{AppEnv}
use tp5_borda_rojas.Firmware.{
  Action, IsTask, rx_receive, rx_send, parse, parser_send, handle, app_send, transmit, actuate,
  System, ByteQueue, act,
}
use tp5_borda_rojas.Firmware.Sized.{Lengths, Sized}
use tp5_borda_rojas.Firmware.Waits.{
  Roomy, tx_queue_empty, actuator_queue_empty, app_queue_empty, parser_queue_empty, isr_queue_empty,
  app_sends_none, parser_sends_none, rx_held_none,
}

module _ (queues : (A : Type 0) → QueueApi A) (gpio : Gpio) (env : AppEnv) where
  abbrev State : Type 0
  State = System queues gpio

  -- No task can go on: each waits in a call of the kernel.
  abbrev pub IsStuck : State → Type 0
  IsStuck s = (a : Action) → IsTask a → act queues gpio env s a ≡ none

  -- Nothing is left to do.
  pub record Idle (s : State) : Type 0 where
    pub isr :
        (q : ByteQueue queues gpio) → s.uart.rx_queue ≡ some q → QueueApi.items (queues ℕ) q ≡ []
    pub rx_held : s.rx_held ≡ none
    pub parser_queue : QueueApi.items (queues ℕ) s.parser_queue ≡ []
    pub parser_sends : s.parser_sends ≡ []
    pub app_queue : QueueApi.items (queues Message) s.app_queue ≡ []
    pub app_sends : s.app_sends ≡ []
    pub tx_queue : QueueApi.items (queues Message) s.tx_queue ≡ []
    pub actuator_queue : QueueApi.items (queues ActuatorCommand) s.actuator_queue ≡ []

  module _ (s : State) (stuck : IsStuck s) (n : Lengths) (roomy : Roomy n)
      (k : Sized queues gpio env n s) where
    -- There is no deadlock. In a state whose queues keep to their lengths, with room for something in the
    -- four queues into which tasks send: if no task can go on, nothing is left to do, no byte, message,
    -- reply or command is held by a task or stands in a queue.
    pub IsStuck-Idle : Idle s
    IsStuck-Idle =
        let tx = tx_queue_empty queues gpio env s (stuck transmit tt) in
        let actuator = actuator_queue_empty queues gpio env s (stuck actuate tt) in
        let sends = app_sends_none queues gpio env s n roomy k (stuck app_send tt) tx actuator in
        let app = app_queue_empty queues gpio env s (stuck handle tt) sends in
        let sent = parser_sends_none queues gpio env s n roomy k (stuck parser_send tt) app in
        let parser = parser_queue_empty queues gpio env s (stuck parse tt) sent in
        let held = rx_held_none queues gpio env s n roomy k (stuck rx_send tt) parser in
        record {
          isr = isr_queue_empty queues gpio env s (stuck rx_receive tt) held;
          rx_held = held;
          parser_queue = parser;
          parser_sends = sent;
          app_queue = app;
          app_sends = sends;
          tx_queue = tx;
          actuator_queue = actuator;
        }
