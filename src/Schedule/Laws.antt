-- ===== src/Schedule/Laws.antt =====
-- firmware/app/tasks.c: what the priorities mean for the bytes that come in.
use tp5_borda_rojas.Base.{
  ℕ, ◌<◌, none, some, List, [], ◌∷◌, append-nil, ◌≡◌, refl, ap, arith, Bytes, length,
}
use tp5_borda_rojas.Protocol.Message.{Message}
use tp5_borda_rojas.Queue.{QueueApi}
use tp5_borda_rojas.Actuators.{Gpio}
use tp5_borda_rojas.Tasks.ParserTask.{parser_rounds}
use tp5_borda_rojas.Tasks.Session.{AppEnv}
use tp5_borda_rojas.Firmware.{
  Action, rx_receive, rx_send, parse, parser_send, System, ByteQueue, Reach,
}
use tp5_borda_rojas.Firmware.Flow.Laws.{Reach-Flow}
use tp5_borda_rojas.Firmware.Sized.{Lengths, Sized, Reach-Sized}
use tp5_borda_rojas.Firmware.Waits.{
  Roomy, parser_queue_empty, rx_held_none, isr_queue_empty, app_queue_full,
}
use tp5_borda_rojas.Firmware.Ready.{Ready, Ready-Flow}
use tp5_borda_rojas.Schedule.{priority, MayRun}

module _ (queues : (A : Type 0) → QueueApi A) (gpio : Gpio) (env : AppEnv) (n : Lengths) where
  abbrev State : Type 0
  State = System queues gpio

  -- No byte is on its way to the parser.
  pub record Drained (s : State) : Type 0 where
    pub isr :
        (q : ByteQueue queues gpio) → s.uart.rx_queue ≡ some q → QueueApi.items (queues ℕ) q ≡ []
    pub rx_held : s.rx_held ≡ none
    pub parser_queue : QueueApi.items (queues ℕ) s.parser_queue ≡ []

  pub MayRun-Drained :
      (s : State) (a : Action)
      → Roomy n
      → Sized queues gpio env n s
      → MayRun queues gpio env s a
      → priority a < priority parse
      → s.parser_sends ≡ []
      → Drained s
  MayRun-Drained s a roomy k may lower free =
      let parser = parser_queue_empty queues gpio env s (may parse tt lower) free in
      let held =
        rx_held_none queues gpio env s n roomy k (may rx_send tt (omega (arith, lower))) parser in
      record {
        isr = isr_queue_empty queues gpio env s (may rx_receive tt (omega (arith, lower))) held;
        rx_held = held;
        parser_queue = parser;
      }

  -- What a task of a lower priority finds.
  pub data Found (start s : State) (bytes : Bytes) : Type 0 where
    all_parsed :
        (parser_rounds start.parser bytes).0 ≡ s.parser → s.parser_sends ≡ [] → Found start s bytes
    app_behind :
        (m : Message) (ms : List Message)
        → s.parser_sends ≡ m ∷ ms
        → length (QueueApi.items (queues Message) s.app_queue) ≡ n.app_queue
        → Found start s bytes

  found :
      (start s : State) (bytes : Bytes) (a : Action) (ms : List Message)
      → Ready queues gpio env n start
      → Reach queues gpio env start s bytes
      → MayRun queues gpio env s a
      → priority a < priority parse
      → s.parser_sends ≡ ms
      → Found start s bytes
  found start s bytes a [] ready r may lower e =
      let sized = Reach-Sized queues gpio env n start s bytes ready.sized r in
      let k =
        Reach-Flow queues gpio env start s bytes (Ready-Flow queues gpio env n start ready) r in
      let d = MayRun-Drained s a ready.roomy sized may lower e in
      let whole : k.past.consumed ≡ bytes =
        rw (d.parser_queue, d.rx_held, d.isr k.queue k.bytes_flow.0, append-nil) at
          (k.bytes_flow.1) in
      all_parsed (rw (← whole) (ap (λ x. x.0) k.messages_flow)) e
  found start s bytes a (m ∷ ms) ready r may lower e =
      let (room, fits) = (Reach-Sized queues gpio env n start s bytes ready.sized r).app in
      app_behind m ms e (
        omega (
          arith,
          app_queue_full queues gpio env s m ms (may parser_send tt (omega (arith, lower))) e,
          room,
          fits,
        ))

  -- When a task whose priority is below that of `task_parser` may run, in a system that was ready at the
  -- start: either every byte that the interrupt accepted has been parsed and `task_parser` holds no
  -- message, or that task holds one and the queue of the application is full.
  pub MayRun-Found :
      (start s : State) (bytes : Bytes) (a : Action)
      → Ready queues gpio env n start
      → Reach queues gpio env start s bytes
      → MayRun queues gpio env s a
      → priority a < priority parse
      → Found start s bytes
  MayRun-Found start s bytes a ready r may lower =
      found start s bytes a s.parser_sends ready r may lower refl
