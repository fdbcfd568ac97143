-- ===== src/Firmware/Refine.antt =====
-- firmware/app/tasks.c: the tasks in any order against the same tasks one after another.
use tp5_borda_rojas.Base.{◌++◌, append-nil, ◌≡◌, refl, ◌∙◌, Bytes}
use tp5_borda_rojas.Handles.{g_actuator_queue}
use tp5_borda_rojas.Queue.{QueueApi}
use tp5_borda_rojas.Actuators.{Gpio}
use tp5_borda_rojas.App.Replies.{commands_of}
use tp5_borda_rojas.App.Led.{run_commands}
use tp5_borda_rojas.Tasks.ParserTask.{parser_rounds}
use tp5_borda_rojas.Tasks.Session.{AppEnv, Session, run_session}
use tp5_borda_rojas.Tasks.Session.History.{apply_all-orders}
use tp5_borda_rojas.Firmware.{System, Reach}
use tp5_borda_rojas.Firmware.Flow.{Flow}
use tp5_borda_rojas.Firmware.Flow.Laws.{Reach-Flow}
use tp5_borda_rojas.Firmware.Sized.{Lengths, Reach-Sized}
use tp5_borda_rojas.Firmware.Stuck.{IsStuck, Idle, IsStuck-Idle}
use tp5_borda_rojas.Firmware.Ready.{Ready, Ready-Flow}

module _ (queues : (A : Type 0) → QueueApi A) (gpio : Gpio) (env : AppEnv) (n : Lengths)
    (start : System queues gpio) (ready : Ready queues gpio env n start) where
  abbrev State : Type 0
  State = System queues gpio

  -- What the tasks make of these bytes when each runs until its queue is empty, one task after another.
  abbrev pub session : Bytes → Session
  session bytes = run_session env start.parser start.app bytes start.tx_frame start.tx_length

  -- The parser, the application, the line and the pin are as after a session.
  pub record Settled (s : State) (bytes : Bytes) : Type 0 where
    pub parser : s.parser ≡ (session bytes).task
    pub app : s.app ≡ (session bytes).app
    pub line : s.line ≡ start.line ++ (session bytes).line
    pub pin : s.pin ≡ run_commands gpio g_actuator_queue (session bytes).commands start.pin

  settled :
      (s : State) (bytes : Bytes)
      → Flow queues gpio env start s bytes
      → Idle queues gpio env s
      → Settled s bytes
  unfolding run_session
  settled s bytes k i =
      let p = k.past in
      let whole : p.consumed ≡ bytes =
        rw (i.parser_queue, i.rx_held, i.isr k.queue k.bytes_flow.0, append-nil) at
          (k.bytes_flow.1) in
      let parsed : parser_rounds start.parser bytes ≡ (s.parser, p.seen) =
        rw (whole, i.app_queue, i.parser_sends, append-nil) at k.messages_flow in
      let sent = rw (i.tx_queue, i.app_sends, append-nil) at k.replies_flow in
      let applied = rw (i.actuator_queue, i.app_sends, append-nil) at k.commands_flow in
      record {
        parser = rw parsed refl;
        app = rw (parsed, k.handling_flow.0) refl;
        line = rw (parsed, k.handling_flow.0, sent) k.line_flow.0;
        pin =
            rw (parsed, k.handling_flow.0)
              (k.pin_flow ∙ rw (← applied) (apply_all-orders gpio (commands_of p.sends) start.pin));
      }

  -- From a system that is ready (its queues empty, with the lengths given and room for something, the
  -- interrupt with its queue) the tasks may run in any order, and be interrupted at any time: once all of
  -- them wait, the parser, the application, the bytes on the line and the pin are what the tasks make of
  -- the accepted bytes when they run one after another, each until its queue is empty.
  pub IsStuck-Settled :
      (s : State) (bytes : Bytes)
      → Reach queues gpio env start s bytes
      → IsStuck queues gpio env s
      → Settled s bytes
  IsStuck-Settled s bytes r stuck =
      settled s bytes
        (Reach-Flow queues gpio env start s bytes (Ready-Flow queues gpio env n start ready) r)
        (IsStuck-Idle queues gpio env s stuck n ready.roomy
          (Reach-Sized queues gpio env n start s bytes ready.sized r))
