-- ===== src/Firmware/Flow/Laws.antt =====
-- firmware/app/tasks.c: each step moves one item one place further.
use tp5_borda_rojas.Base.{
  [], ◌∷◌, ◌++◌, append_assoc, append-nil, ◌≡◌, refl, sym, ◌∙◌, arith, Bytes, length-append,
}
use tp5_borda_rojas.Queue.{QueueApi}
use tp5_borda_rojas.Actuators.{Gpio}
use tp5_borda_rojas.Tasks.Intake.Laws.{parser_rounds-snoc}
use tp5_borda_rojas.Tasks.Session.{AppEnv}
use tp5_borda_rojas.Tasks.Session.History.{
  app_rounds-snoc, tx_rounds-snoc, tx_buffers-snoc, replies_in, orders_in, replies_in-append,
  orders_in-append, apply_all-snoc,
}
use tp5_borda_rojas.Firmware.{System, ByteQueue, Reach, here, later, accepted}
use tp5_borda_rojas.Firmware.Turns.Laws.{act-Turn}
use tp5_borda_rojas.Firmware.Turns.{
  Turn, unattached, dropped, queued, byte_received, byte_sent, byte_parsed, message_delivered,
  message_handled, reply_sent, command_sent, send_lost, reply_transmitted, command_applied,
  TaskTurn, task, handling,
}
use tp5_borda_rojas.Firmware.Flow.{
  Past, messages_in, commands_in, BytesFlow, MessagesFlow, HandlingFlow, RepliesFlow, CommandsFlow,
  LineFlow, PinFlow, Flow,
}

module _ (queues : (A : Type 0) → QueueApi A) (gpio : Gpio) (env : AppEnv)
    (start : System queues gpio) where
  abbrev State : Type 0
  State = System queues gpio

  Flow-of :
      (s : State) (bytes : Bytes) (p : Past) (q : ByteQueue queues gpio)
      → BytesFlow queues gpio env start p s q bytes
      → MessagesFlow queues gpio env start p s
      → HandlingFlow queues gpio env start p s
      → RepliesFlow queues gpio env start p s
      → CommandsFlow queues gpio env start p s
      → LineFlow queues gpio env start p s
      → PinFlow queues gpio env start p s
      → Flow queues gpio env start s bytes
  Flow-of s bytes p q a b c d e f g = record {
    past = p;
    queue = q;
    bytes_flow = a;
    messages_flow = b;
    handling_flow = c;
    replies_flow = d;
    commands_flow = e;
    line_flow = f;
    pin_flow = g;
  }

  TaskTurn-Flow :
      (s t : State) (bytes : Bytes)
      → TaskTurn queues gpio env s t
      → Flow queues gpio env start s bytes
      → Flow queues gpio env start t bytes
  TaskTurn-Flow s t bytes (byte_received x q q' free at h e) k =
      let same : k.queue ≡ q = cc (at, k.bytes_flow.0) in
      rw e (
        Flow-of _ _ k.past q' (refl, rw (free, same, h.out) at (k.bytes_flow.1)) k.messages_flow
          k.handling_flow k.replies_flow k.commands_flow k.line_flow k.pin_flow)
  TaskTurn-Flow s t bytes (byte_sent x q' held h e) k = rw e (
      Flow-of _ _ k.past k.queue
        (k.bytes_flow.0, rw (h.back, append_assoc) (rw held at (k.bytes_flow.1))) k.messages_flow
        k.handling_flow k.replies_flow k.commands_flow k.line_flow k.pin_flow)
  TaskTurn-Flow s t bytes (byte_parsed x q' free h e) k = rw e (
      Flow-of _ _ (record (k.past) { consumed = k.past.consumed ++ (x ∷ []) }) k.queue
        (k.bytes_flow.0, rw append_assoc (rw h.out at (k.bytes_flow.1)))
        (parser_rounds-snoc start.parser k.past.consumed x
          ∙ rw (k.messages_flow, free, append-nil, append_assoc) refl)
        k.handling_flow k.replies_flow k.commands_flow k.line_flow k.pin_flow)
  TaskTurn-Flow s t bytes (message_delivered m ms q' left h e) k = rw e (
      Flow-of _ _ k.past k.queue k.bytes_flow
        (rw (h.back, append_assoc) (rw left at (k.messages_flow))) k.handling_flow k.replies_flow
        k.commands_flow k.line_flow k.pin_flow)
  TaskTurn-Flow s t bytes (message_handled m q' free h e) k =
      let p = k.past in
      let hs = (handling queues gpio env s m).sends in
      let replied : replies_in p.sends ≡ p.sent ++ messages_in queues gpio env start s.tx_queue =
        rw (free, append-nil) at (k.replies_flow) in
      let ordered : orders_in p.sends
          ≡ p.applied ++ commands_in queues gpio env start s.actuator_queue =
        rw (free, append-nil) at (k.commands_flow) in
      rw e (
        Flow-of _ _ (record p { seen = p.seen ++ (m ∷ []); sends = p.sends ++ hs }) k.queue
          k.bytes_flow (rw append_assoc (rw h.out at (k.messages_flow)))
          (
            app_rounds-snoc env 0 start.app p.seen m s.handled (omega (arith, k.handling_flow.1))
                ∙ rw k.handling_flow.0 refl,
            omega (arith, k.handling_flow.1, length-append p.seen (m ∷ [])),
          )
          (replies_in-append p.sends hs ∙ rw (replied, append_assoc) refl)
          (orders_in-append p.sends hs ∙ rw (ordered, append_assoc) refl) k.line_flow k.pin_flow)
  TaskTurn-Flow s t bytes (send_lost x rest left no_reply no_order e) k = rw e (
      Flow-of _ _ k.past k.queue k.bytes_flow k.messages_flow k.handling_flow
        (rw (left, no_reply) at (k.replies_flow)) (rw (left, no_order) at (k.commands_flow))
        k.line_flow k.pin_flow)
  TaskTurn-Flow s t bytes (reply_sent m rest q' left h e) k = rw e (
      Flow-of _ _ k.past k.queue k.bytes_flow k.messages_flow k.handling_flow
        (rw (h.back, append_assoc) (rw left at (k.replies_flow))) (rw left at (k.commands_flow))
        k.line_flow k.pin_flow)
  TaskTurn-Flow s t bytes (command_sent c rest q' left h e) k = rw e (
      Flow-of _ _ k.past k.queue k.bytes_flow k.messages_flow k.handling_flow
        (rw left at (k.replies_flow)) (rw (h.back, append_assoc) (rw left at (k.commands_flow)))
        k.line_flow k.pin_flow)
  TaskTurn-Flow s t bytes (reply_transmitted m q' h e) k =
      let p = k.past in
      let (line, frame, n) = k.line_flow in
      rw e (
        Flow-of _ _ (record p { sent = p.sent ++ (m ∷ []) }) k.queue k.bytes_flow k.messages_flow
          k.handling_flow (rw append_assoc (rw h.out at (k.replies_flow))) k.commands_flow
          (
            rw
                (
                  tx_rounds-snoc p.sent m start.tx_frame start.tx_length,
                  ← frame,
                  ← n,
                  ← append_assoc,
                  ← line,
                )
                refl,
            rw (tx_buffers-snoc p.sent m start.tx_frame start.tx_length, ← frame, ← n) refl,
            rw (tx_buffers-snoc p.sent m start.tx_frame start.tx_length, ← frame, ← n) refl,
          )
          k.pin_flow)
  TaskTurn-Flow s t bytes (command_applied c q' h e) k = rw e (
      Flow-of _ _ (record (k.past) { applied = k.past.applied ++ (c ∷ []) }) k.queue k.bytes_flow
        k.messages_flow k.handling_flow k.replies_flow
        (rw append_assoc (rw h.out at (k.commands_flow))) k.line_flow
        (rw k.pin_flow (sym (apply_all-snoc gpio k.past.applied c start.pin))))

  Turn-Flow :
      (s t : State) (bytes b : Bytes)
      → Turn queues gpio env s t b
      → Flow queues gpio env start s bytes
      → Flow queues gpio env start t (bytes ++ b)
  Turn-Flow s t bytes b (unattached at e) k = absurd (cc (at, k.bytes_flow.0))
  Turn-Flow s t bytes b (dropped q at e) k =
      rw (e, append-nil)
        (Flow-of _ _ k.past k.queue k.bytes_flow k.messages_flow k.handling_flow k.replies_flow
          k.commands_flow k.line_flow k.pin_flow)
  Turn-Flow s t bytes b (queued x q q' at h e) k =
      let same : k.queue ≡ q = cc (at, k.bytes_flow.0) in
      rw e (
        Flow-of _ _ k.past q' (refl, rw (h.back, ← same, ← k.bytes_flow.1) (simp append_assoc refl))
          k.messages_flow k.handling_flow k.replies_flow k.commands_flow k.line_flow k.pin_flow)
  Turn-Flow s t bytes b (task turn) k = rw append-nil (TaskTurn-Flow s t bytes turn k)

  -- A system that starts with a flow keeps it in every order of the steps.
  pub Reach-Flow :
      (s : State) (bytes : Bytes)
      → Flow queues gpio env start start []
      → Reach queues gpio env start s bytes
      → Flow queues gpio env start s bytes
  Reach-Flow s bytes k here = k
  Reach-Flow s bytes k (later u t before a r e) =
      Turn-Flow u t before (accepted queues gpio u a) (act-Turn queues gpio env u t a e)
        (Reach-Flow u before k r)
