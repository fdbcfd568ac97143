-- ===== src/Firmware/Outside.antt =====
-- firmware/app/tasks.c: what the outside sees of the system at any time, on the line and at the LED.
use tp5_borda_rojas.Base.{
  ◌+◌, List, [], ◌++◌, append_assoc, ◌≡◌, refl, sym, ◌∙◌, Bytes, length, All-append_left,
}
use tp5_borda_rojas.Protocol.Message.{Message}
use tp5_borda_rojas.Parser.{Parser}
use tp5_borda_rojas.Parser.Reading.{IsReading}
use tp5_borda_rojas.Parser.Stream.{feed}
use tp5_borda_rojas.App.Led.{led_count}
use tp5_borda_rojas.Queue.{QueueApi}
use tp5_borda_rojas.Actuators.{Gpio}
use tp5_borda_rojas.Actuators.Laws.{lit}
use tp5_borda_rojas.Tasks.ParserTask.{parser_rounds}
use tp5_borda_rojas.Tasks.ParserTask.Laws.{IsWord, messages, parser_rounds-Follows}
use tp5_borda_rojas.Tasks.Intake.Laws.{held_bytes}
use tp5_borda_rojas.Tasks.Session.{AppEnv, app_rounds, tx_rounds}
use tp5_borda_rojas.Tasks.Session.Laws.{
  Heard, led_run, CanSend, answers, counted_all, tx_rounds-Heard, app_rounds-Replied,
}
use tp5_borda_rojas.Tasks.Session.History.{replies_in, orders_in}
use tp5_borda_rojas.Tasks.Session.Prefix.{parser_rounds-append, answers-append}
use tp5_borda_rojas.Firmware.{System, ByteQueue, Reach}
use tp5_borda_rojas.Firmware.Flow.{Flow, bytes_in, messages_in, commands_in}
use tp5_borda_rojas.Firmware.Flow.Laws.{Reach-Flow}
use tp5_borda_rojas.Firmware.Sized.{Lengths}
use tp5_borda_rojas.Firmware.Ready.{Ready, Ready-Flow}
use tp5_borda_rojas.Firmware.Led.{applied-LitAfterSome}

module _ (queues : (A : Type 0) → QueueApi A) (gpio : Gpio) (env : AppEnv) (n : Lengths)
    (start : System queues gpio) (ready : Ready queues gpio env n start) where
  abbrev State : Type 0
  State = System queues gpio

  -- The messages in bytes that start to come, and the answers to them.
  abbrev pub messages_for : Bytes → List Message
  messages_for bytes = messages (feed start.parser.parser start.parser.message bytes).events

  abbrev bytes_left : State → ByteQueue queues gpio → Bytes
  bytes_left s q =
      bytes_in queues gpio env start s.parser_queue
      ++ (held_bytes s.rx_held ++ bytes_in queues gpio env start q)

  -- The messages that have not been handled.
  abbrev unseen : State → ByteQueue queues gpio → List Message
  unseen s q =
      messages_in queues gpio env start s.app_queue
      ++ (s.parser_sends ++ (parser_rounds s.parser (bytes_left s q)).1)

  flow :
      (s : State) (bytes : Bytes)
      → Reach queues gpio env start s bytes
      → Flow queues gpio env start s bytes
  flow s bytes r =
      Reach-Flow queues gpio env start s bytes (Ready-Flow queues gpio env n start ready) r

  all_messages :
      (s : State) (bytes : Bytes) (k : Flow queues gpio env start s bytes)
      → IsWord start.parser
      → k.past.seen ++ unseen s k.queue ≡ messages_for bytes
  all_messages s bytes k words = sym (
      sym (parser_rounds-Follows bytes start.parser words).sent
      ∙ rw (← k.bytes_flow.1, parser_rounds-append, k.messages_flow) (simp append_assoc refl))

  -- The LED in a state: as the first of the messages handled say; of the messages handled behind
  -- them, as many move the LED as there are commands in the queue of the actuators and in the hand
  -- of `task_app`.
  pub record LitNow (s : State) (ms : List Message) : Type 0 where
    pub first : List Message
    pub pending : List Message
    pub unhandled : List Message
    pub parts : (first ++ pending) ++ unhandled ≡ ms
    pub handled : s.handled ≡ length (first ++ pending)
    pub each :
        led_count pending
        ≡ length (commands_in queues gpio env start s.actuator_queue ++ orders_in s.app_sends)
    pub led : lit gpio s.pin ≡ led_run first (lit gpio start.pin)

  -- From a system that is ready, with 32-bit counters of the task of the parser, at any time and
  -- whatever the order of the steps: the messages in the bytes accepted begin with those that have
  -- been handled, as many as `handled` counts; the LED is as the first of these say, one after
  -- another, from what it was at the start; and of the handled messages behind those first ones, as
  -- many move the LED as there are commands that still wait, in the queue of the actuators or in
  -- the hand of `task_app`.
  pub Reach-LitNow :
      IsWord start.parser
      → (s : State) (bytes : Bytes) → Reach queues gpio env start s bytes
      → LitNow s (messages_for bytes)
  Reach-LitNow words s bytes r =
      let k = flow s bytes r in
      let p = k.past in
      let waiting = commands_in queues gpio env start s.actuator_queue ++ orders_in s.app_sends in
      let applied : orders_in (app_rounds env 0 start.app p.seen).1 ≡ p.applied ++ waiting =
        rw k.handling_flow.0 k.commands_flow in
      let h =
        applied-LitAfterSome gpio env p.seen 0 start.app p.applied waiting start.pin applied in
      record {
        first = h.first;
        pending = h.pending;
        unhandled = unseen s k.queue;
        parts = rw (h.parts) (all_messages s bytes k words);
        handled = rw (h.parts) (k.handling_flow.1);
        each = h.each;
        led = rw k.pin_flow (h.led);
      }

  module _ (far : Parser) (previous : Message) where
    -- The other end of the line has received some of the replies.
    pub record HeardSome (s : State) (replies : List Message) : Type 0 where
      pub line : Bytes
      pub whole : s.line ≡ start.line ++ line
      pub first : List Message
      pub others : List Message
      pub parts : first ++ others ≡ replies
      pub heard : Heard (feed far previous line) first

    module _ (words : IsWord start.parser) (waits : IsReading far []) where
      Flow-HeardSome :
          (s : State) (bytes : Bytes)
          → Flow queues gpio env start s bytes
          → HeardSome s (answers env 0 start.app (messages_for bytes))
      Flow-HeardSome s bytes k =
          let p = k.past in
          let answered = app_rounds-Replied env p.seen 0 start.app in
          let rest = messages_in queues gpio env start s.tx_queue ++ replies_in s.app_sends in
          let so_far : p.sent ++ rest ≡ answers env 0 start.app p.seen =
            sym k.replies_flow ∙ rw k.handling_flow.0 at answered.each in
          record {
            line = tx_rounds p.sent start.tx_frame start.tx_length;
            whole = k.line_flow.0;
            first = p.sent;
            others =
                rest
                ++ answers env (0 + length p.seen) (counted_all start.app p.seen)
                    (unseen s k.queue);
            parts =
                rw
                  (
                    ← all_messages s bytes k words,
                    answers-append env 0 start.app p.seen (unseen s k.queue),
                    ← so_far,
                  )
                  (simp append_assoc refl);
            heard =
                tx_rounds-Heard p.sent far previous start.tx_frame start.tx_length
                  (All-append_left CanSend p.sent rest (rw so_far answered.can_send)) waits;
          }

      -- From a system that is ready, at any time and whatever the order of the steps, the other end of the
      -- line has received the first of the replies that the table `reply_of` has for the messages in the
      -- bytes accepted, in their order, and nothing else: with
      -- 32-bit counters of the task of the parser, and a parser that waits at the other end.
      pub Reach-HeardSome :
          (s : State) (bytes : Bytes)
          → Reach queues gpio env start s bytes
          → HeardSome s (answers env 0 start.app (messages_for bytes))
      Reach-HeardSome s bytes r = Flow-HeardSome s bytes (flow s bytes r)
