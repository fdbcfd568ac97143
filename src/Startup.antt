-- ===== src/Startup.antt =====
-- firmware/main.c and `tasks_start` of firmware/app/tasks.c: from power-on to the start of the scheduler.
pub mod Early
pub mod Laws
pub mod Boot
pub mod Service
pub mod Lines
pub mod Heap
use tp5_borda_rojas.Handles.{
  g_actuator_queue, g_app_queue, g_parser_input_queue, g_uart_rx_isr_queue, g_uart_tx_queue,
}
use tp5_borda_rojas.Base.{
  ℕ, Bool, true, false, Option, none, some, List, [], ◌∷◌, Bytes, codes, if◌then◌else◌,
}
use tp5_borda_rojas.Config.{
  uart_rx_isr_queue_length, parser_input_queue_length, app_message_queue_length,
  uart_tx_queue_length, actuator_queue_length,
}
use tp5_borda_rojas.Protocol.Message.{Message}
use tp5_borda_rojas.Parser.{Parser, parser_init}
use tp5_borda_rojas.Queue.{QueueApi}
use tp5_borda_rojas.Actuators.{ActuatorCommand, Gpio, actuators_init}
use tp5_borda_rojas.App.{AppState, app_init}
use tp5_borda_rojas.Uart.{Uart, set_rx_queue, isr_burst}
use tp5_borda_rojas.Tasks.ParserTask.{ParserTask}
use tp5_borda_rojas.Tasks.Session.{kept}
use tp5_borda_rojas.Board.{Call, board_init}
use tp5_borda_rojas.Firmware.{System, ByteQueue, MessageQueue, CommandQueue}

-- The functions of the tasks of tasks.c; `task_telemetry` is not among those created.
pub data TaskFunction : Type 0 where
  task_uart_rx task_parser task_app task_telemetry task_actuators task_uart_tx : TaskFunction

-- The arguments of `xTaskCreate` that are not null.
pub record TaskCreated : Type 0 where
  pub function : TaskFunction
  pub name : Bytes
  pub stack_depth : ℕ
  pub priority : ℕ

abbrev created : TaskFunction → Bytes → ℕ → ℕ → TaskCreated
created f name depth priority = record {
  function = f;
  name = name;
  stack_depth = depth;
  priority = priority;
}

-- The calls of `xTaskCreate`, in their order.
abbrev pub created_tasks : List TaskCreated
created_tasks =
    created task_uart_rx (codes "uart_rx") 160 3
    ∷ created task_parser (codes "parser") 192 3
    ∷ created task_app (codes "app") 192 2
    ∷ created task_actuators (codes "actuators") 160 2
    ∷ created task_uart_tx (codes "uart_tx") 192 2
    ∷ []

-- What the kernel answers while it starts: whether `xTaskCreate` has made a task, and whether
-- `vTaskStartScheduler` can start the scheduler; where it cannot, it returns.
pub record Kernel : Type 0 where
  pub creates : TaskCreated → Bool
  pub starts : Bool

-- The tasks that have been made. The code does not look at what `xTaskCreate` returns.
abbrev pub made : Kernel → List TaskCreated → List TaskCreated
made kernel [] = []
made kernel (t ∷ ts) = let rest = made kernel ts in if kernel.creates t then t ∷ rest else rest

-- What the local variables of the tasks hold before they are written: the parser and the message of
-- `task_parser`, and the array of `task_uart_tx`.
pub record Locals : Type 0 where
  pub parser : Parser
  pub message : Message
  pub frame : Bytes

module _ (queues : (A : Type 0) → QueueApi A) (gpio : Gpio) where
  open gpio use {Pin}

  -- `halted` where a `configASSERT` has failed: the interrupts are disabled and nothing runs any more.
  -- `running` with the tasks that there are.
  pub data Outcome : Type 0 where
    halted : Outcome
    running : System queues gpio → List TaskCreated → Outcome

  -- `configASSERT` on a queue that may be null, and on a condition.
  abbrev assert_queue : {A : Type 0} → Option A → (A → Outcome) → Outcome
  assert_queue none after = halted
  assert_queue (some q) after = after q

  abbrev config_assert : Bool → Outcome → Outcome
  config_assert condition after = if condition then after else halted

  -- The parser and the counters of `task_parser` when it starts.
  abbrev pub parser_start : Locals → Option Parser → ParserTask
  parser_start locals p = record {
    parser = kept locals.parser p;
    message = locals.message;
    byte_count = 0;
    message_count = 0;
    error_count = 0;
  }

  -- The tasks in front of their first calls of `xQueueReceive`.
  abbrev pub at_start :
      Locals
      → Uart (queues ℕ)
      → AppState
      → Pin
      → ByteQueue queues gpio
      → ByteQueue queues gpio
      → MessageQueue queues gpio
      → MessageQueue queues gpio
      → CommandQueue queues gpio
      → System queues gpio
  at_start locals uart app pin isr input messages replies commands = record {
    uart = set_rx_queue (queues ℕ) uart (some isr);
    rx_held = none;
    parser_queue = input;
    parser = parser_start locals (parser_init (some locals.parser));
    parser_sends = [];
    app_queue = messages;
    app = app;
    app_sends = [];
    handled = 0;
    tx_queue = replies;
    tx_frame = locals.frame;
    tx_length = 0;
    line = [];
    actuator_queue = commands;
    pin = pin;
  }

  unfoldable pub tasks_start : Locals → Kernel → Uart (queues ℕ) → AppState → Pin → Outcome
  tasks_start locals kernel uart app pin =
      let isr = QueueApi.create (queues ℕ) g_uart_rx_isr_queue uart_rx_isr_queue_length in
      let input = QueueApi.create (queues ℕ) g_parser_input_queue parser_input_queue_length in
      let messages = QueueApi.create (queues Message) g_app_queue app_message_queue_length in
      let replies = QueueApi.create (queues Message) g_uart_tx_queue uart_tx_queue_length in
      let commands =
        QueueApi.create (queues ActuatorCommand) g_actuator_queue actuator_queue_length in
      assert_queue isr λ q. assert_queue input λ r. assert_queue messages λ m.
        assert_queue replies λ t. assert_queue commands λ c.
          if kernel.starts
          then running (at_start locals uart app pin q r m t c) (made kernel created_tasks)
          else config_assert false halted

  -- The driver's variables before any code has run.
  abbrev pub uart_zero : Uart (queues ℕ)
  uart_zero = record { rx_queue = none; rx_irq_count = 0; rx_drop_count = 0 }

  -- What `main` does: the calls that set up the hardware, and what `tasks_start` comes to.
  pub record PoweredOn : Type 0 where
    pub calls : List Call
    pub outcome : Outcome

  -- The words are those for which the interrupt comes before `tasks_start` gives it its queue; the variables
  -- of app.c are `app` before. Behind `tasks_start` there is only an empty loop.
  unfoldable pub main : Locals → Kernel → List ℕ → AppState → Pin → PoweredOn
  main locals kernel early app pin = record {
    calls = board_init;
    outcome =
        tasks_start locals kernel (isr_burst (queues ℕ) uart_zero early) (app_init app)
          (actuators_init gpio pin);
  }
