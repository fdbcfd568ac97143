-- ===== src/Firmware/Sized.antt =====
-- firmware/app/tasks.c: the five queues keep to the lengths that they were created with.
use tp5_borda_rojas.Base.{ℕ, some, ◌≡◌, Bytes}
use tp5_borda_rojas.Protocol.Message.{Message}
use tp5_borda_rojas.Queue.{QueueApi}
use tp5_borda_rojas.Queue.Laws.{Fits, Received-Fits, Sent-Fits}
use tp5_borda_rojas.Actuators.{ActuatorCommand, Gpio}
use tp5_borda_rojas.Tasks.Session.{AppEnv}
use tp5_borda_rojas.Firmware.{System, ByteQueue, Reach, here, later, accepted}
use tp5_borda_rojas.Firmware.Turns.{
  TaskTurn, Turn, unattached, dropped, queued, task, byte_received, byte_sent, byte_parsed,
  message_delivered, message_handled, reply_sent, command_sent, send_lost, reply_transmitted,
  command_applied,
}
use tp5_borda_rojas.Firmware.Turns.Laws.{act-Turn}

-- The lengths of the queues.
pub record Lengths : Type 0 where
  pub isr_queue : ℕ
  pub parser_queue : ℕ
  pub app_queue : ℕ
  pub tx_queue : ℕ
  pub actuator_queue : ℕ

module _ (queues : (A : Type 0) → QueueApi A) (gpio : Gpio) (env : AppEnv) (n : Lengths) where
  abbrev State : Type 0
  State = System queues gpio

  pub record Sized (s : State) : Type 0 where
    pub isr : (q : ByteQueue queues gpio) → s.uart.rx_queue ≡ some q → Fits (queues ℕ) n.isr_queue q
    pub parser : Fits (queues ℕ) n.parser_queue s.parser_queue
    pub app : Fits (queues Message) n.app_queue s.app_queue
    pub tx : Fits (queues Message) n.tx_queue s.tx_queue
    pub actuator : Fits (queues ActuatorCommand) n.actuator_queue s.actuator_queue

  abbrev IsrFits : State → Type 0
  IsrFits s = (q : ByteQueue queues gpio) → s.uart.rx_queue ≡ some q → Fits (queues ℕ) n.isr_queue q

  sized :
      (s : State)
      → IsrFits s
      → Fits (queues ℕ) n.parser_queue s.parser_queue
      → Fits (queues Message) n.app_queue s.app_queue
      → Fits (queues Message) n.tx_queue s.tx_queue
      → Fits (queues ActuatorCommand) n.actuator_queue s.actuator_queue
      → Sized s
  sized s a b c d e = record { isr = a; parser = b; app = c; tx = d; actuator = e }

  -- The queue of the interrupt when one has taken its place.
  now :
      (q : ByteQueue queues gpio)
      → Fits (queues ℕ) n.isr_queue q
      → (r : ByteQueue queues gpio) → some q ≡ some r
      → Fits (queues ℕ) n.isr_queue r
  now q f r e = let same : q ≡ r = cc in rw same at f

  TaskTurn-Sized : (s t : State) → TaskTurn queues gpio env s t → Sized s → Sized t
  TaskTurn-Sized s t (byte_received b q q' free attached h e) k = rw e (
      sized _ (now q' (Received-Fits (queues ℕ) _ q b q' h (k.isr q attached))) k.parser k.app k.tx
        k.actuator)
  TaskTurn-Sized s t (byte_sent b q' held h e) k =
      rw e (sized _ k.isr (Sent-Fits (queues ℕ) _ _ b q' h k.parser) k.app k.tx k.actuator)
  TaskTurn-Sized s t (byte_parsed b q' free h e) k =
      rw e (sized _ k.isr (Received-Fits (queues ℕ) _ _ b q' h k.parser) k.app k.tx k.actuator)
  TaskTurn-Sized s t (message_delivered m ms q' left h e) k =
      rw e (sized _ k.isr k.parser (Sent-Fits (queues Message) _ _ m q' h k.app) k.tx k.actuator)
  TaskTurn-Sized s t (message_handled m q' free h e) k =
      rw e
        (sized _ k.isr k.parser (Received-Fits (queues Message) _ _ m q' h k.app) k.tx k.actuator)
  TaskTurn-Sized s t (send_lost x rest left no_reply no_order e) k =
      rw e (sized _ k.isr k.parser k.app k.tx k.actuator)
  TaskTurn-Sized s t (reply_sent m rest q' left h e) k =
      rw e (sized _ k.isr k.parser k.app (Sent-Fits (queues Message) _ _ m q' h k.tx) k.actuator)
  TaskTurn-Sized s t (command_sent c rest q' left h e) k =
      rw e (
        sized _ k.isr k.parser k.app k.tx
          (Sent-Fits (queues ActuatorCommand) _ _ c q' h k.actuator))
  TaskTurn-Sized s t (reply_transmitted m q' h e) k =
      rw e
        (sized _ k.isr k.parser k.app (Received-Fits (queues Message) _ _ m q' h k.tx) k.actuator)
  TaskTurn-Sized s t (command_applied c q' h e) k = rw e (
      sized _ k.isr k.parser k.app k.tx
        (Received-Fits (queues ActuatorCommand) _ _ c q' h k.actuator))

  Turn-Sized : (s t : State) (b : Bytes) → Turn queues gpio env s t b → Sized s → Sized t
  Turn-Sized s t b (unattached free e) k = rw e (sized _ k.isr k.parser k.app k.tx k.actuator)
  Turn-Sized s t b (dropped q full e) k = rw e (sized _ k.isr k.parser k.app k.tx k.actuator)
  Turn-Sized s t b (queued x q q' attached h e) k = rw e (
      sized _ (now q' (Sent-Fits (queues ℕ) _ q x q' h (k.isr q attached))) k.parser k.app k.tx
        k.actuator)
  Turn-Sized s t b (task turn) k = TaskTurn-Sized s t turn k

  -- From a state where the queues have the lengths given, no queue holds more than its length, and no
  -- length changes, whatever the order of the steps.
  pub Reach-Sized :
      (start s : State) (bytes : Bytes)
      → Sized start
      → Reach queues gpio env start s bytes
      → Sized s
  Reach-Sized start s bytes k here = k
  Reach-Sized start s bytes k (later u t before a r e) =
      Turn-Sized u t (accepted queues gpio u a) (act-Turn queues gpio env u t a e)
        (Reach-Sized start u before k r)
