-- ===== src/Schedule.antt =====
-- firmware/app/tasks.c: which task runs, by the priorities that `tasks_start` gives. The kernel runs a task that
-- can go on only while every task of a higher priority waits; the interrupt comes at any time.
pub mod Laws
pub mod Next
pub mod Pace
use tp5_borda_rojas.Base.{
  ◌++◌, u8, ℕ, zero, suc, ◌<◌, Bool, none, some, List, [], ◌∷◌, ◌≡◌, ◌==◌, Bytes, if◌then◌else◌,
  Option,
}
use tp5_borda_rojas.Queue.{QueueApi}
use tp5_borda_rojas.Actuators.{Gpio}
use tp5_borda_rojas.Tasks.Session.{AppEnv}
use tp5_borda_rojas.Firmware.{
  Action, IsTask, interrupt, rx_receive, rx_send, parse, parser_send, handle, app_send, transmit,
  actuate, System, act,
}
use tp5_borda_rojas.Firmware.Waits.{Waits}
use tp5_borda_rojas.Firmware.Stuck.{IsStuck}
use tp5_borda_rojas.Startup.{
  TaskFunction, task_uart_rx, task_parser, task_app, task_telemetry, task_actuators, task_uart_tx,
  TaskCreated, created_tasks,
}

-- Whose step it is.
abbrev pub function_of : Action → Option TaskFunction
function_of (interrupt w) = none
function_of rx_receive = some task_uart_rx
function_of rx_send = some task_uart_rx
function_of parse = some task_parser
function_of parser_send = some task_parser
function_of handle = some task_app
function_of app_send = some task_app
function_of transmit = some task_uart_tx
function_of actuate = some task_actuators

abbrev number : TaskFunction → ℕ
number task_uart_rx = 0
number task_parser = 1
number task_app = 2
number task_telemetry = 3
number task_actuators = 4
number task_uart_tx = 5

-- The priority with which a function was given to `xTaskCreate`; 0, that of the idle task, if it was not.
abbrev pub priority_in : List TaskCreated → TaskFunction → ℕ
priority_in [] f = 0
priority_in (t ∷ ts) f =
    let rest = priority_in ts f in if number t.function == number f then t.priority else rest

abbrev priority_or_none : Option TaskFunction → ℕ
priority_or_none none = 0
priority_or_none (some f) = priority_in created_tasks f

abbrev pub priority : Action → ℕ
priority a = priority_or_none (function_of a)

module _ (queues : (A : Type 0) → QueueApi A) (gpio : Gpio) (env : AppEnv) where
  abbrev State : Type 0
  State = System queues gpio

  -- Every task of a higher priority waits.
  abbrev pub MayRun : State → Action → Type 0
  MayRun s a = (b : Action) → IsTask b → priority a < priority b → Waits queues gpio env s b

  -- States that the kernel's scheduler can come to, with the number of interrupts since a task of a priority
  -- below that of the parser has run, with no message held back by `task_parser`, or since nothing was left
  -- to do; there are never more than `limit` of them.
  pub data Paced (limit : ℕ) (start : State) : State → ℕ → Type 0 where
    begin : Paced limit start start 0
    byte :
        (s t : State) (w i : ℕ)
        → Paced limit start s i
        → i < limit
        → act queues gpio env s (interrupt w) ≡ some t
        → Paced limit start t (suc i)
    urgent :
        (s t : State) (a : Action) (i : ℕ)
        → Paced limit start s i
        → IsTask a
        → MayRun s a
        → act queues gpio env s a ≡ some t
        → Paced limit start t i
    calm :
        (s t : State) (a : Action) (i : ℕ)
        → Paced limit start s i
        → IsTask a
        → MayRun s a
        → priority a < priority parse
        → s.parser_sends ≡ []
        → act queues gpio env s a ≡ some t
        → Paced limit start t 0
    idle :
        (s : State) (i : ℕ)
        → Paced limit start s i
        → IsStuck queues gpio env s
        → Paced limit start s 0

  -- The bytes that came in the interrupts, of the nine bits of each word the low eight.
  abbrev pub came : (limit : ℕ) (start s : State) (i : ℕ) → Paced limit start s i → Bytes
  came limit start s i begin = []
  came limit start s i (byte u t w j p room e) = came limit start u j p ++ (u8 w ∷ [])
  came limit start s i (urgent u t a j p h may e) = came limit start u j p
  came limit start s i (calm u t a j p h may lower free e) = came limit start u j p
  came limit start s i (idle u j p stuck) = came limit start u j p
