-- ===== src/Startup/Service.antt =====
-- firmware/main.c and firmware/app/tasks.c: from power-on to the replies and the LED.
use tp5_borda_rojas.Base.{
  ◌⊎◌, ℕ, ◌+◌, ◌≤◌, false, some, List, [], ◌++◌, ◌≡◌, inl, inr, refl, ◌∙◌, arith, All, Bytes,
  length,
}
use tp5_borda_rojas.Config.{max_body_size}
use tp5_borda_rojas.Protocol.Message.{Message}
use tp5_borda_rojas.Parser.{Parser}
use tp5_borda_rojas.Parser.Reading.{IsReading}
use tp5_borda_rojas.Parser.Stream.{feed}
use tp5_borda_rojas.Queue.{QueueApi}
use tp5_borda_rojas.Actuators.{Gpio}
use tp5_borda_rojas.Actuators.Laws.{lit}
use tp5_borda_rojas.App.{AppState}
use tp5_borda_rojas.Tasks.ParserTask.{ParserTask}
use tp5_borda_rojas.Tasks.ParserTask.Laws.{IsWord, messages}
use tp5_borda_rojas.Tasks.Session.{AppEnv}
use tp5_borda_rojas.Tasks.Session.Laws.{Heard, answers, counted_all, led_run}
use tp5_borda_rojas.Firmware.{Action, IsTask, System, Reach}
use tp5_borda_rojas.Firmware.Measure.{work, act_all}
use tp5_borda_rojas.Firmware.Settle.{Goes, Reach-act_all}
use tp5_borda_rojas.Firmware.Stuck.{IsStuck}
use tp5_borda_rojas.Firmware.Ready.{Ready}
use tp5_borda_rojas.Firmware.Refine.{session}
use tp5_borda_rojas.Firmware.Outside.{Reach-HeardSome}
use tp5_borda_rojas.Firmware.Finish.{Reach-Finish}
use tp5_borda_rojas.Startup.{Locals, Kernel, running, created_tasks, main}
use tp5_borda_rojas.Startup.Laws.{config_lengths}
use tp5_borda_rojas.Startup.Boot.{main-Booted}

module _ (queues : (A : Type 0) → QueueApi A) (gpio : Gpio) (env : AppEnv) where
  open gpio use {Pin}

  abbrev State : Type 0
  State = System queues gpio

  abbrev app_zero : AppState
  app_zero = record { rx_count = 0; error_count = 0 }

  -- All tasks wait, and the outside has seen everything: the replies at a parser `far`, and the LED.
  pub record Completed (far : Parser) (previous : Message) (last : State) (ms : List Message)
      : Type 0 where
    pub stuck : IsStuck queues gpio env last
    pub heard : Heard (feed far previous last.line) (answers env 0 app_zero ms)
    pub app : last.app ≡ counted_all app_zero ms
    pub led : lit gpio last.pin ≡ led_run ms false

  -- After steps of tasks from a state: what the outside has seen, and that there have not been too
  -- many steps; a task can go on, or all is done.
  pub record Serves (far : Parser) (previous : Message) (s : State) (actions : List Action)
      (last : State) (ms : List Message) : Type 0 where
    pub first : List Message
    pub others : List Message
    pub parts : first ++ others ≡ answers env 0 app_zero ms
    pub heard : Heard (feed far previous last.line) first
    pub few : length actions + work queues gpio last ≤ work queues gpio s
    pub end : Goes queues gpio env last ⊎ Completed far previous last ms

  -- A word of 0 is one.
  zero-IsWord :
      (t : ParserTask) → t.byte_count ≡ 0 → t.message_count ≡ 0 → t.error_count ≡ 0 → IsWord t
  zero-IsWord t a b c = (omega (arith, a), omega (arith, b), omega (arith, c))

  module _ (far : Parser) (previous : Message) (waits : IsReading far []) where
    ready-Serves :
        (start : State)
        → Ready queues gpio env config_lengths start
        → IsWord start.parser
        → start.app ≡ app_zero
        → start.line ≡ []
        → lit gpio start.pin ≡ false
        → (s : State) (bytes : Bytes) → Reach queues gpio env start s bytes
        → (actions : List Action) (last : State) → All IsTask actions
        → act_all queues gpio env s actions ≡ some last
        → Serves far previous s actions last
            (messages (feed start.parser.parser start.parser.message bytes).events)
    ready-Serves start ready words app silent dark s bytes r actions last are_tasks makes =
        let n = config_lengths in
        let now =
          Reach-HeardSome queues gpio env n start ready far previous words waits last bytes
            (Reach-act_all queues gpio env start actions s last bytes r are_tasks makes) in
        let finish =
          Reach-Finish queues gpio env n start ready far previous words waits s bytes r actions last
            are_tasks makes in
        let line : last.line ≡ now.line = now.whole ∙ rw silent refl in
        record {
          first = now.first;
          others = now.others;
          parts = rw app at now.parts;
          heard = rw line now.heard;
          few = finish.few;
          end = elim (finish.end) [
            | inl goes ↦ inl goes
            | inr done ↦
                let last_line : last.line ≡ (session queues gpio env n start ready bytes).line =
                  done.line ∙ rw silent refl in
                inr (record {
                  stuck = done.stuck;
                  heard = rw (last_line, ← app) (done.served.heard);
                  app = rw (← app) (done.app);
                  led = rw (← dark) (done.led);
                })
          ];
        }

    -- From power-on: the system runs with all five tasks, and has come to some state, whatever the
    -- order of tasks and interrupts; then, with no interrupt any more, let the tasks make any
    -- steps, in any order. A parser that waited at the other end of the line has received the first
    -- of the replies that the table `reply_of` has for the messages in the bytes accepted, in their
    -- order, and nothing else; the number of these steps and the work that is left are together at
    -- most the work that there was; and either some task can go on, or all of them wait and that
    -- parser has received exactly these replies, one for each message, the counters of the
    -- application are as the table says, and the LED is as the messages say, from dark on. So the
    -- tasks, in whatever order, come to where all is done. The memory has a parser of the right
    -- size; the messages are those that the incremental parser makes of the bytes, whose
    -- hexadecimal digits may be of either case.
    pub main-Serves :
        (locals : Locals) (kernel : Kernel) (early : List ℕ) (app : AppState) (pin : Pin)
        → length locals.parser.body ≡ max_body_size + 1
        → (start : State)
        → (main queues gpio locals kernel early app pin).outcome ≡ running start created_tasks
        → (s : State) (bytes : Bytes) → Reach queues gpio env start s bytes
        → (actions : List Action) (last : State) → All IsTask actions
        → act_all queues gpio env s actions ≡ some last
        → Serves far previous s actions last
            (messages (feed start.parser.parser start.parser.message bytes).events)
    main-Serves locals kernel early app pin size start runs s bytes r actions last are_tasks makes =
        elim ((main-Booted queues gpio env locals early size app pin kernel).outcome) [
          | inl (why, stops) ↦ absurd (cc (runs, stops))
          | inr k ↦
              let same : k.state ≡ start = cc (runs, k.runs) in
              ready-Serves start (rw same at k.ready)
                (zero-IsWord start.parser (rw same at k.bytes) (rw same at k.messages)
                  (rw same at k.errors))
                (rw same at k.app) (rw same at k.silent) (rw same at k.dark) s bytes r actions last
                are_tasks makes
        ]
