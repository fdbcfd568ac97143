-- ===== src/Tasks/Session/Laws.antt =====
-- firmware/app/tasks.c: from the bytes received to the replies at the other end of the line, and to the LED.
use tp5_borda_rojas.Handles.{g_uart_tx_queue, g_actuator_queue}
use tp5_borda_rojas.Base.{
  arith, ℕ, suc, Bool, some, List, [], ◌∷◌, ◌++◌, ◌≡◌, refl, sym, ap, ◌∙◌, Bytes, All, IsText,
}
use tp5_borda_rojas.Protocol.Message.{Message}
use tp5_borda_rojas.Protocol.Spec.{IsSendable}
use tp5_borda_rojas.Parser.{Parser}
use tp5_borda_rojas.Parser.Reading.{IsReading}
use tp5_borda_rojas.Parser.Stream.{Event, received, Stream, feed}
use tp5_borda_rojas.Parser.Stream.Laws.{feed-append, feed-nil}
use tp5_borda_rojas.Actuators.{ActuatorCommand, Gpio}
use tp5_borda_rojas.Actuators.Laws.{lit}
use tp5_borda_rojas.App.{AppState, Send, send_message, send_command, handle_message}
use tp5_borda_rojas.App.Replies.{messages_of, commands_of, handle_message-Answered}
use tp5_borda_rojas.App.Answers.{counted, reply_of, handle_message-reply_of}
use tp5_borda_rojas.App.Led.{run_commands, led_spec, lit-handle_message}
use tp5_borda_rojas.Tasks.ParserTask.{ParserTask}
use tp5_borda_rojas.Tasks.ParserTask.Laws.{IsWord, messages, parser_rounds-Follows}
use tp5_borda_rojas.Tasks.UartTx.{tx_round}
use tp5_borda_rojas.Tasks.UartTx.Laws.{tx_round-Receives}
use tp5_borda_rojas.Tasks.Session.{AppEnv, app_rounds, tx_rounds, replies, Session, run_session}

abbrev pub events_for : List Message → List Event
events_for [] = []
events_for (m ∷ ms) = received m ∷ events_for ms

-- The other end of the line after some replies: exactly these have been received, in their order.
pub record Heard (s : Stream) (ms : List Message) : Type 0 where
  pub all : s.events ≡ events_for ms
  pub waits : IsReading s.parser []

-- The message of a list of one.
abbrev reply_in : List (ℕ × Message) → Message → Message
reply_in [] other = other
reply_in ((q, m) ∷ ms) other = m

abbrev pub CanSend : Message → Type 0
CanSend m = IsSendable m × IsText m.payload

pub tx_rounds-Heard :
    (ms : List Message) (p : Parser) (previous : Message) (old : Bytes) (n : ℕ)
    → All CanSend ms
    → IsReading p []
    → Heard (feed p previous (tx_rounds ms old n)) ms
unfolding tx_rounds
tx_rounds-Heard [] p previous old n h r = rw feed-nil (record { all = refl; waits = r })
tx_rounds-Heard (m ∷ ms) p previous old n ((sendable, text), hs) r =
    let first = tx_round-Receives m previous old n p sendable text r in
    let later =
      tx_rounds-Heard ms (feed p previous (tx_round m old n)).parser
        (feed p previous (tx_round m old n)).message _ _ hs first.waits in
    rw feed-append
      (record { all = rw first.once (ap (λ es. received m ∷ es) later.all); waits = later.waits })

messages_of-append : (xs ys : List Send) → messages_of (xs ++ ys) ≡ messages_of xs ++ messages_of ys
messages_of-append [] ys = refl
messages_of-append (send_message q m ∷ xs) ys = ap (λ l. (q, m) ∷ l) (messages_of-append xs ys)
messages_of-append (send_command q c ∷ xs) ys = messages_of-append xs ys

commands_of-append : (xs ys : List Send) → commands_of (xs ++ ys) ≡ commands_of xs ++ commands_of ys
commands_of-append [] ys = refl
commands_of-append (send_message q m ∷ xs) ys = commands_of-append xs ys
commands_of-append (send_command q c ∷ xs) ys = ap (λ l. (q, c) ∷ l) (commands_of-append xs ys)

-- The counters of the application after some messages, and its replies, by the table.
abbrev pub counted_all : AppState → List Message → AppState
counted_all s [] = s
counted_all s (m ∷ ms) = counted_all (counted s m) ms

abbrev pub answers : AppEnv → ℕ → AppState → List Message → List Message
answers env i s [] = []
answers env i s (m ∷ ms) = reply_of s (env.counters i) m ∷ answers env (suc i) (counted s m) ms

pub record Replied (env : AppEnv) (i : ℕ) (s : AppState) (ms : List Message)
    (r : AppState × List Send) : Type 0 where
  pub each : replies (messages_of r.1) ≡ answers env i s ms
  pub can_send : All CanSend (answers env i s ms)
  pub state : r.0 ≡ counted_all s ms

-- The reply of the table is the one that is sent, and so it can be sent.
reply_of-CanSend :
    (env : AppEnv) (i : ℕ) (s : AppState) (m : Message) → CanSend (reply_of s (env.counters i) m)
reply_of-CanSend env i s m =
    let one =
      handle_message-Answered s (env.counters i) env.garbage m g_uart_tx_queue g_actuator_queue
        (omega arith) (omega arith) in
    let table =
      (handle_message-reply_of s (env.counters i) env.garbage m g_uart_tx_queue g_actuator_queue
        (omega arith) (omega arith)).0 in
    let same : one.reply ≡ reply_of s (env.counters i) m =
      ap (λ l. reply_in l m) (sym one.only ∙ table) in
    let fine : CanSend one.reply = (one.sendable, one.text) in rw same at fine

pub app_rounds-Replied :
    (env : AppEnv) (ms : List Message) (i : ℕ) (s : AppState)
    → Replied env i s ms (app_rounds env i s ms)
unfolding app_rounds
app_rounds-Replied env [] i s = record { each = refl; can_send = tt; state = refl }
app_rounds-Replied env (m ∷ ms) i s =
    let (sent, state) =
      handle_message-reply_of s (env.counters i) env.garbage m g_uart_tx_queue g_actuator_queue
        (omega arith) (omega arith) in
    let later = app_rounds-Replied env ms (suc i) (counted s m) in
    record {
      each =
          rw (state, messages_of-append, sent)
            (ap (λ l. reply_of s (env.counters i) m ∷ l) later.each);
      can_send = (reply_of-CanSend env i s m, later.can_send);
      state = rw state later.state;
    }

-- What the protocol says of the LED after some messages.
abbrev pub led_run : List Message → Bool → Bool
led_run [] light = light
led_run (m ∷ ms) light = led_run ms (led_spec m light)

module _ (gpio : Gpio) where
  open gpio use {Pin}

  run_commands-append :
      (xs ys : List (ℕ × ActuatorCommand)) (pin : Pin)
      → run_commands gpio g_actuator_queue (xs ++ ys) pin
        ≡ run_commands gpio g_actuator_queue ys (run_commands gpio g_actuator_queue xs pin)
  run_commands-append [] ys pin = refl
  run_commands-append ((q, c) ∷ xs) ys pin = run_commands-append xs ys _

  lit-app_rounds :
      (env : AppEnv) (ms : List Message) (i : ℕ) (s : AppState) (pin : Pin)
      → lit gpio (run_commands gpio g_actuator_queue (commands_of (app_rounds env i s ms).1) pin)
        ≡ led_run ms (lit gpio pin)
  unfolding app_rounds
  lit-app_rounds env [] i s pin = refl
  lit-app_rounds env (m ∷ ms) i s pin =
      let h =
        handle_message s (env.counters i) env.garbage (some m) g_uart_tx_queue g_actuator_queue in
      rw (commands_of-append, run_commands-append)
        (lit-app_rounds env ms (suc i) h.state
            (run_commands gpio g_actuator_queue (commands_of h.sends) pin)
          ∙ ap (led_run ms) (
              lit-handle_message gpio s (env.counters i) env.garbage m g_uart_tx_queue
                g_actuator_queue pin (omega arith) (omega arith)))

  -- What the outside sees of a session: on the line, in the counters and at the LED.
  pub record Served (env : AppEnv) (s : AppState) (ms : List Message) (far : Parser)
      (previous : Message) (pin : Pin) (r : Session) : Type 0 where
    pub heard : Heard (feed far previous r.line) (answers env 0 s ms)
    pub state : r.app ≡ counted_all s ms
    pub led :
        lit gpio (run_commands gpio g_actuator_queue r.commands pin) ≡ led_run ms (lit gpio pin)

  -- With 32-bit counters of the parser's task, whatever bytes are received, frames, noise or broken
  -- frames: a parser that waits at the other end of the line receives, for the messages that the
  -- firmware's parser makes of them, exactly the replies of the table `reply_of`, one for each and
  -- in their order; the counters of the application are as that table says, and the LED is left as
  -- the messages say, one after another. `task_uart_tx` and `task_actuators` each receive what was
  -- sent to their own queue. Each task runs until its queue is empty, in the order parser,
  -- application, actuators and transmission.
  pub run_session-Served :
      (env : AppEnv) (t : ParserTask) (s : AppState) (bytes old : Bytes) (n : ℕ) (far : Parser)
      (previous : Message) (pin : Pin)
      → IsWord t
      → IsReading far []
      → Served env s
          (messages (feed t.parser t.message bytes).events)
          far
          previous
          pin
          (run_session env t s bytes old n)
  unfolding run_session
  run_session-Served env t s bytes old n far previous pin words waits =
      let parsed = (parser_rounds-Follows bytes t words).sent in
      let ms = messages (feed t.parser t.message bytes).events in
      let answered = app_rounds-Replied env ms 0 s in
      record {
        heard =
            rw (parsed, answered.each)
              (tx_rounds-Heard (answers env 0 s ms) far previous old n answered.can_send waits);
        state = rw parsed answered.state;
        led = rw parsed (lit-app_rounds env ms 0 s pin);
      }
