-- ===== src/Schedule/Pace.antt =====
-- firmware/app/tasks.c and firmware/drivers/uart_comm.c: when no byte is dropped.
use tp5_borda_rojas.Base.{
  ◌++◌, append-nil, ℕ, suc, ◌+◌, ◌≤◌, ◌<◌, some, [], ◌∷◌, ◌≡◌, inl, inr, refl, ap, arith, Bytes,
  length, length-append, u8, u32,
}
use tp5_borda_rojas.Queue.{QueueApi}
use tp5_borda_rojas.Queue.Laws.{send_cases}
use tp5_borda_rojas.Actuators.{Gpio}
use tp5_borda_rojas.Uart.{usart1_isr}
use tp5_borda_rojas.Tasks.Session.{AppEnv}
use tp5_borda_rojas.Firmware.{
  Action, IsTask, interrupt, System, ByteQueue, act, accepted, Reach, here, later,
}
use tp5_borda_rojas.Firmware.Turns.{
  byte_received, byte_sent, byte_parsed, message_delivered, message_handled, reply_sent,
  command_sent, send_lost, reply_transmitted, command_applied, TaskTurn,
}
use tp5_borda_rojas.Firmware.Turns.Laws.{act-TaskTurn}
use tp5_borda_rojas.Firmware.Sized.{Lengths, Sized, Reach-Sized}
use tp5_borda_rojas.Firmware.Settle.{accepted_task}
use tp5_borda_rojas.Firmware.Stuck.{IsStuck-Idle}
use tp5_borda_rojas.Firmware.Ready.{Ready}
use tp5_borda_rojas.Schedule.{Paced, begin, byte, urgent, calm, idle, came}
use tp5_borda_rojas.Schedule.Laws.{MayRun-Drained}

module _ (queues : (A : Type 0) → QueueApi A) (gpio : Gpio) (env : AppEnv) (n : Lengths)
    (start : System queues gpio) (ready : Ready queues gpio env n start) where
  abbrev State : Type 0
  State = System queues gpio

  -- The queue of the interrupt holds so many bytes at most, and none has been dropped.
  record Within (s : State) (i : ℕ) : Type 0 where
    queue : ByteQueue queues gpio
    attached : s.uart.rx_queue ≡ some queue
    holds : length (QueueApi.items (queues ℕ) queue) ≤ i
    drops : s.uart.rx_drop_count ≡ start.uart.rx_drop_count

  within :
      (s : State) (i : ℕ) (q : ByteQueue queues gpio)
      → s.uart.rx_queue ≡ some q
      → length (QueueApi.items (queues ℕ) q) ≤ i
      → s.uart.rx_drop_count ≡ start.uart.rx_drop_count
      → Within s i
  within s i q a b c = record { queue = q; attached = a; holds = b; drops = c }

  -- A step of a task puts nothing into that queue.
  TaskTurn-Within : (s t : State) (i : ℕ) → TaskTurn queues gpio env s t → Within s i → Within t i
  TaskTurn-Within s t i (byte_received b q q' free at h e) k =
      let same : k.queue ≡ q = cc (at, k.attached) in
      rw e (within _ i q' refl (omega (arith, ap length h.out, rw same at k.holds)) k.drops)
  TaskTurn-Within s t i (byte_sent b q' held h e) k =
      rw e (within _ i k.queue k.attached k.holds k.drops)
  TaskTurn-Within s t i (byte_parsed b q' free h e) k =
      rw e (within _ i k.queue k.attached k.holds k.drops)
  TaskTurn-Within s t i (message_delivered m ms q' left h e) k =
      rw e (within _ i k.queue k.attached k.holds k.drops)
  TaskTurn-Within s t i (message_handled m q' free h e) k =
      rw e (within _ i k.queue k.attached k.holds k.drops)
  TaskTurn-Within s t i (send_lost x rest left no_reply no_order e) k =
      rw e (within _ i k.queue k.attached k.holds k.drops)
  TaskTurn-Within s t i (reply_sent m rest q' left h e) k =
      rw e (within _ i k.queue k.attached k.holds k.drops)
  TaskTurn-Within s t i (command_sent c rest q' left h e) k =
      rw e (within _ i k.queue k.attached k.holds k.drops)
  TaskTurn-Within s t i (reply_transmitted m q' h e) k =
      rw e (within _ i k.queue k.attached k.holds k.drops)
  TaskTurn-Within s t i (command_applied c q' h e) k =
      rw e (within _ i k.queue k.attached k.holds k.drops)

  -- A byte finds room as long as the queue is not full.
  byte-Within :
      (s t : State) (w i : ℕ)
      → Within s i
      → Sized queues gpio env n s
      → i < n.isr_queue
      → act queues gpio env s (interrupt w) ≡ some t
      → Within t (suc i)
  unfolding act usart1_isr
  byte-Within s t w i k sized room e =
      let (same, fits) = sized.isr k.queue k.attached in
      elim (send_cases (queues ℕ) k.queue (u8 w)) [
        | inl (full, over) ↦ absurd (omega (arith, k.holds, room, same, over))
        | inr (q', sent, h) ↦
            let made : record s {
              uart = record (s.uart) {
                rx_queue = some q';
                rx_irq_count = u32 (s.uart.rx_irq_count + 1);
              };
            }
                ≡ t =
              cc (simp (k.attached, sent) at e) in
            rw (← made) (
              within _ (suc i) q' refl
                (omega (
                  arith,
                  k.holds,
                  ap length h.back,
                  length-append (QueueApi.items (queues ℕ) k.queue) (u8 w ∷ []),
                ))
                k.drops)
      ]

  emptied :
      (s : State) (i : ℕ)
      → Within s i
      → ((q : ByteQueue queues gpio) → s.uart.rx_queue ≡ some q → QueueApi.items (queues ℕ) q ≡ [])
      → Within s 0
  emptied s i k empty =
      within s 0 k.queue k.attached (omega (arith, ap length (empty k.queue k.attached))) k.drops

  -- What has been accepted is all that came.
  record Paces (s : State) (i : ℕ) (bytes : Bytes) : Type 0 where
    within_room : Within s i
    reached : Reach queues gpio env start s bytes

  Paces-Sized : (s : State) (i : ℕ) (bytes : Bytes) → Paces s i bytes → Sized queues gpio env n s
  Paces-Sized s i bytes k = Reach-Sized queues gpio env n start s bytes ready.sized k.reached

  -- A byte that finds room is accepted.
  byte-Paces :
      (s t : State) (w i : ℕ) (bytes : Bytes)
      → Paces s i bytes
      → i < n.isr_queue
      → act queues gpio env s (interrupt w) ≡ some t
      → Paces t (suc i) (bytes ++ (u8 w ∷ []))
  byte-Paces s t w i bytes k room e =
      let sized = Paces-Sized s i bytes k in
      let q = k.within_room.queue in
      let (same, fits) = sized.isr q k.within_room.attached in
      let taken : accepted queues gpio s (interrupt w) ≡ u8 w ∷ [] =
        elim (send_cases (queues ℕ) q (u8 w)) [
          | inl (full, over) ↦ absurd (omega (arith, k.within_room.holds, room, same, over))
          | inr (q', sent, h) ↦ rw (k.within_room.attached, sent)
        ] in
      record {
        within_room = byte-Within s t w i k.within_room sized room e;
        reached = rw taken at (later s t bytes (interrupt w) k.reached e);
      }

  task-Paces :
      (s t : State) (a : Action) (i j : ℕ) (bytes : Bytes)
      → IsTask a
      → act queues gpio env s a ≡ some t
      → Paces s i bytes
      → Within s j
      → Paces t j bytes
  task-Paces s t a i j bytes h e k room = record {
    within_room = TaskTurn-Within s t j (act-TaskTurn queues gpio env s t a h e) room;
    reached =
        rw (accepted_task queues gpio env s a h, append-nil) at (later s t bytes a k.reached e);
  }

  Paced-Paces :
      (i : ℕ) (s : State) (p : Paced queues gpio env n.isr_queue start s i)
      → Paces s i (came queues gpio env n.isr_queue start s i p)
  Paced-Paces i s begin = record {
    within_room =
        within s 0 ready.queue ready.attached
          (omega (arith, ap length (ready.idle.isr ready.queue ready.attached))) refl;
    reached = here;
  }
  Paced-Paces i s (byte u t w j p room e) = byte-Paces u t w j _ (Paced-Paces j u p) room e
  Paced-Paces i s (urgent u t a j p h may e) =
      let k = Paced-Paces j u p in task-Paces u t a j j _ h e k k.within_room
  Paced-Paces i s (calm u t a j p h may lower free e) =
      let k = Paced-Paces j u p in
      let d =
        MayRun-Drained queues gpio env n u a ready.roomy (Paces-Sized u j _ k) may lower free in
      task-Paces u t a j 0 _ h e k (emptied u j k.within_room d.isr)
  Paced-Paces i s (idle u j p stuck) =
      let k = Paced-Paces j u p in
      let d = IsStuck-Idle queues gpio env u stuck n ready.roomy (Paces-Sized u j _ k) in
      record { within_room = emptied u j k.within_room d.isr; reached = k.reached }

  -- In a system that was ready at the start, and whose tasks run by their priorities: no byte is
  -- dropped, and the bytes accepted are all that came, in their order, as long as no more interrupts
  -- come than the queue of the interrupt has room for, from one time that a task below the parser
  -- runs while `task_parser` holds no message, or that nothing is left to do, to the next.
  pub Paced-no_drop :
      (i : ℕ) (s : State) (p : Paced queues gpio env n.isr_queue start s i)
      → (s.uart.rx_drop_count ≡ start.uart.rx_drop_count)
        × Reach queues gpio env start s (came queues gpio env n.isr_queue start s i p)
  Paced-no_drop i s p = let k = Paced-Paces i s p in (k.within_room.drops, k.reached)
