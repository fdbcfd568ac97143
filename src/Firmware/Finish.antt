-- ===== src/Firmware/Finish.antt =====
-- firmware/app/tasks.c: what the tasks come to when they are left to run.
use tp5_borda_rojas.Base.{
  ◌+◌, ◌⊎◌, inl, inr, ◌≤◌, some, List, [], ◌++◌, ◌≡◌, ap, ◌∙◌, Bytes, length, All,
}
use tp5_borda_rojas.Protocol.Message.{Message}
use tp5_borda_rojas.Parser.{Parser}
use tp5_borda_rojas.Parser.Reading.{IsReading}
use tp5_borda_rojas.Queue.{QueueApi}
use tp5_borda_rojas.Actuators.{Gpio}
use tp5_borda_rojas.Actuators.Laws.{lit}
use tp5_borda_rojas.Tasks.ParserTask.Laws.{IsWord}
use tp5_borda_rojas.Tasks.Session.{AppEnv}
use tp5_borda_rojas.Tasks.Session.Laws.{led_run, counted_all, Served, run_session-Served}
use tp5_borda_rojas.Firmware.{Action, IsTask, System, Reach}
use tp5_borda_rojas.Firmware.Sized.{Lengths}
use tp5_borda_rojas.Firmware.Measure.{work, act_all, act_all-work}
use tp5_borda_rojas.Firmware.Stuck.{IsStuck}
use tp5_borda_rojas.Firmware.Settle.{Goes, Goes-cases, Reach-act_all}
use tp5_borda_rojas.Firmware.Ready.{Ready}
use tp5_borda_rojas.Firmware.Refine.{session, IsStuck-Settled}
use tp5_borda_rojas.Firmware.Outside.{messages_for}

module _ (queues : (A : Type 0) → QueueApi A) (gpio : Gpio) (env : AppEnv) (n : Lengths)
    (start : System queues gpio) (ready : Ready queues gpio env n start) where
  abbrev State : Type 0
  State = System queues gpio

  module _ (far : Parser) (previous : Message) where
    -- All tasks wait, and what they did is a session.
    pub record Finished (last : State) (bytes : Bytes) : Type 0 where
      pub stuck : IsStuck queues gpio env last
      pub line : last.line ≡ start.line ++ (session queues gpio env n start ready bytes).line
      pub served :
          Served gpio env start.app
            (messages_for queues gpio env n start ready bytes)
            far
            previous
            start.pin
            (session queues gpio env n start ready bytes)
      pub app : last.app ≡ counted_all start.app (messages_for queues gpio env n start ready bytes)
      pub led :
          lit gpio last.pin
          ≡ led_run (messages_for queues gpio env n start ready bytes) (lit gpio start.pin)

    -- After steps of tasks from a state: there have not been too many, and a task can go on or all is done.
    pub record Finish (s : State) (bytes : Bytes) (actions : List Action) (last : State)
        : Type 0 where
      pub few : length actions + work queues gpio last ≤ work queues gpio s
      pub end : Goes queues gpio env last ⊎ Finished last bytes

    module _ (words : IsWord start.parser) (waits : IsReading far []) where
      finished :
          (last : State) (bytes : Bytes)
          → Reach queues gpio env start last bytes
          → IsStuck queues gpio env last
          → Finished last bytes
      finished last bytes r stuck =
          let done = IsStuck-Settled queues gpio env n start ready last bytes r stuck in
          let served =
            run_session-Served gpio env start.parser start.app bytes start.tx_frame start.tx_length
              far previous start.pin words waits in
          record {
            stuck = stuck;
            line = done.line;
            served = served;
            app = done.app ∙ served.state;
            led = ap (lit gpio) done.pin ∙ served.led;
          }

      -- From every state that can come after a system that is ready, with no interrupt any more,
      -- whatever steps the tasks make and in whatever order: the number of these steps and the work
      -- that is left are together at most the work that there was, and either some task can go on,
      -- or all is done. All is done where all of them wait, the other end of the line has received
      -- exactly the replies of the table `reply_of`, one for each message in the bytes accepted and
      -- in their order, the counters of the application are as that table says, and the LED is as
      -- the messages say. The counters of the task of the parser have 32 bits, and a parser waits
      -- at the other end.
      pub Reach-Finish :
          (s : State) (bytes : Bytes)
          → Reach queues gpio env start s bytes
          → (actions : List Action) (last : State) → All IsTask actions
          → act_all queues gpio env s actions ≡ some last
          → Finish s bytes actions last
      Reach-Finish s bytes r actions last are_tasks makes = record {
        few = act_all-work queues gpio env actions s last are_tasks makes;
        end = elim (Goes-cases queues gpio env last) [
          | inl goes ↦ inl goes
          | inr stuck ↦ inr (
              finished last bytes
                (Reach-act_all queues gpio env start actions s last bytes r are_tasks makes) stuck)
        ];
      }
