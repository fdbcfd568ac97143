-- ===== src/Startup/Lines.antt =====
-- firmware/main.c and firmware/app/tasks.c: from the frames that come in to their replies.
use tp5_borda_rojas.Base.{All, some, ◌⊎◌, ℕ, ◌+◌, List, [], ◌∷◌, ◌≡◌, inl, inr, refl, ap, length}
use tp5_borda_rojas.Config.{max_body_size}
use tp5_borda_rojas.Protocol.Message.{Message}
use tp5_borda_rojas.Parser.{Parser}
use tp5_borda_rojas.Parser.Reading.{IsReading}
use tp5_borda_rojas.Parser.Stream.Lines.{IsLines, all_received, feed-IsLines}
use tp5_borda_rojas.Queue.{QueueApi}
use tp5_borda_rojas.Actuators.{Gpio}
use tp5_borda_rojas.App.{AppState}
use tp5_borda_rojas.Tasks.ParserTask.Laws.{messages}
use tp5_borda_rojas.Tasks.Session.{AppEnv}
use tp5_borda_rojas.Firmware.{Action, IsTask, System}
use tp5_borda_rojas.Firmware.Measure.{act_all}
use tp5_borda_rojas.Firmware.Ready.{Ready}
use tp5_borda_rojas.Schedule.{Paced, came}
use tp5_borda_rojas.Schedule.Next.{Next, Goes-Next}
use tp5_borda_rojas.Schedule.Pace.{Paced-no_drop}
use tp5_borda_rojas.Startup.{Locals, Kernel, running, created_tasks, main}
use tp5_borda_rojas.Startup.Laws.{config_lengths}
use tp5_borda_rojas.Startup.Boot.{main-Booted}
use tp5_borda_rojas.Startup.Service.{Completed, Serves, main-Serves}

messages_received : (ms : List Message) → messages (all_received ms) ≡ ms
messages_received [] = refl
messages_received (m ∷ ms) = ap (λ l. m ∷ l) (messages_received ms)

module _ (queues : (A : Type 0) → QueueApi A) (gpio : Gpio) (env : AppEnv) (far : Parser)
    (previous : Message) (waits : IsReading far []) (locals : Locals) (kernel : Kernel)
    (early : List ℕ) (app : AppState) (size : length locals.parser.body ≡ max_body_size + 1) where
  open gpio use {Pin}

  abbrev State : Type 0
  State = System queues gpio

  module _ (pin : Pin) (start : State)
      (runs : (main queues gpio locals kernel early app pin).outcome
        ≡ running start created_tasks) where
    start_lem : IsReading start.parser.parser [] × Ready queues gpio env config_lengths start
    start_lem = elim ((main-Booted queues gpio env locals early size app pin kernel).outcome) [
      | inl (why, stops) ↦ absurd (cc (runs, stops))
      | inr k ↦
          let same : k.state ≡ start = cc (runs, k.runs) in
          (rw same at k.parser, rw same at k.ready)
    ]

    -- What the outside has seen after steps of tasks; a task can go on, and the priorities let it,
    -- or all is done.
    pub record Answers (s : State) (actions : List Action) (last : State) (ms : List Message)
        : Type 0 where
      pub drops : s.uart.rx_drop_count ≡ start.uart.rx_drop_count
      pub serves : Serves queues gpio env far previous s actions last ms
      pub end : Next queues gpio env last ⊎ Completed queues gpio env far previous last ms

    -- From power-on: the system runs with all five tasks, and these run by their priorities; no
    -- more interrupts come than the queue of the interrupt has room for, from one time that a task
    -- below the parser runs while `task_parser` holds no message, or that nothing is left to do, to
    -- the next; and the bytes that come are frames of the messages `ms`, with hexadecimal digits of
    -- either case, and around them bytes other than start characters. Then no byte is dropped. With
    -- no interrupt any more, let the tasks make any steps, in any order: a parser that waited at
    -- the other end of the line has received the first of the replies of the table to these
    -- messages, in their order, and nothing else; the number of these steps and the work that is
    -- left are together at most the work that there was; and either there is a task that can go on
    -- and that the priorities let run, or all of them wait and that parser has received exactly the
    -- replies, one for each message, the counters of the application are as the table says, and the
    -- LED is as the messages say, from dark on. The memory has a parser of the right size.
    pub main-Answers :
        (s : State) (i : ℕ) (ms : List Message)
        → (p : Paced queues gpio env config_lengths.isr_queue start s i)
        → IsLines (came queues gpio env config_lengths.isr_queue start s i p) ms
        → (actions : List Action) (last : State) → All IsTask actions
        → act_all queues gpio env s actions ≡ some last
        → Answers s actions last ms
    main-Answers s i ms p lines actions last are_tasks makes =
        let (reading, ready) = start_lem in
        let (drops, r) = Paced-no_drop queues gpio env config_lengths start ready i s p in
        let bytes = came queues gpio env config_lengths.isr_queue start s i p in
        let served =
          main-Serves queues gpio env far previous waits locals kernel early app pin size start runs
            s bytes r actions last are_tasks makes in
        let serves : Serves queues gpio env far previous s actions last ms =
          rw
            (
              feed-IsLines bytes ms start.parser.parser start.parser.message reading lines,
              messages_received ms,
            )
            at served in
        record {
          drops = drops;
          serves = serves;
          end = elim (serves.end) [
            | inl goes ↦ inl (Goes-Next queues gpio env last goes)
            | inr done ↦ inr done
          ];
        }
