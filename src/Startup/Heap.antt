-- ===== src/Startup/Heap.antt =====
-- firmware/app/tasks.c and firmware/config/FreeRTOSConfig.h: what `tasks_start` asks of the heap of the kernel.
use tp5_borda_rojas.Handles.{
  g_actuator_queue, g_app_queue, g_parser_input_queue, g_uart_rx_isr_queue, g_uart_tx_queue,
}
use tp5_borda_rojas.Base.{
  All, ℕ, suc, ◌+◌, ◌*◌, ◌≤◌, true, none, List, [], ◌∷◌, ◌++◌, ◌≡◌, ◌≢◌, inl, inr, refl, arith,
  length, take,
}
use tp5_borda_rojas.Config.{
  uart_rx_isr_queue_length, parser_input_queue_length, app_message_queue_length,
  uart_tx_queue_length, actuator_queue_length, minimal_stack_size, total_heap_size, max_body_size,
}
use tp5_borda_rojas.Protocol.Message.{Message}
use tp5_borda_rojas.Queue.{QueueApi}
use tp5_borda_rojas.Actuators.{ActuatorCommand, Gpio}
use tp5_borda_rojas.App.{AppState}
use tp5_borda_rojas.Tasks.Session.{AppEnv}
use tp5_borda_rojas.Firmware.{System}
use tp5_borda_rojas.Startup.{Locals, Kernel, TaskCreated, running, created_tasks, made, main}
use tp5_borda_rojas.Startup.Laws.{
  no_isr_queue, no_parser_queue, no_app_queue, no_tx_queue, no_actuator_queue, no_scheduler, Fails,
}
use tp5_borda_rojas.Startup.Boot.{main-Booted}

-- Sizes in bytes that the compiler and the kernel choose: of `protocol_message_t` and `actuator_command_t`, of
-- the kernel's structures for a queue and for a task, of what the heap keeps for itself, and of what it adds to
-- a block, with the bytes that it rounds up.
pub record Sizes : Type 0 where
  pub message : ℕ
  pub command : ℕ
  pub queue : ℕ
  pub task : ℕ
  pub heap : ℕ
  pub block : ℕ

module _ (z : Sizes) where
  -- A queue is one block; a task has a block for its stack and one for its structure.
  abbrev queue_cost : ℕ → ℕ → ℕ
  queue_cost n item_size = z.block + (z.queue + n * item_size)

  abbrev task_cost : ℕ → ℕ
  task_cost stack_depth = z.block + 4 * stack_depth + (z.block + z.task)

  abbrev task_costs : List TaskCreated → List ℕ
  task_costs [] = []
  task_costs (t ∷ ts) = task_cost t.stack_depth ∷ task_costs ts

  -- What each call of `tasks_start` takes, in their order; `vTaskStartScheduler` creates the idle task.
  abbrev pub costs : List ℕ
  costs =
      queue_cost uart_rx_isr_queue_length 1
      ∷ queue_cost parser_input_queue_length 1
      ∷ queue_cost app_message_queue_length z.message
      ∷ queue_cost uart_tx_queue_length z.message
      ∷ queue_cost actuator_queue_length z.command
      ∷ (task_costs created_tasks ++ (task_cost minimal_stack_size ∷ []))

  abbrev total : List ℕ → ℕ
  total [] = 0
  total (n ∷ ns) = n + total ns

  -- The calls up to number `i`, which is among them, fit into the heap.
  abbrev pub Fit : ℕ → Type 0
  Fit i = z.heap + total (take (suc i) costs) ≤ total_heap_size

  module _ (queues : (A : Type 0) → QueueApi A) (kernel : Kernel) where
    abbrev TasksGranted : ℕ → List TaskCreated → Type 0
    TasksGranted i [] = Unit
    TasksGranted i (t ∷ ts) = (Fit i → kernel.creates t ≡ true) × TasksGranted (suc i) ts

    -- The heap from which nothing is ever given back, as heap_4.c documents it: a call gets its blocks as long
    -- as these and those of the calls before it fit.
    pub record Grants : Type 0 where
      pub isr_queue :
          Fit 0 → QueueApi.create (queues ℕ) g_uart_rx_isr_queue uart_rx_isr_queue_length ≢ none
      pub parser_queue :
          Fit 1 → QueueApi.create (queues ℕ) g_parser_input_queue parser_input_queue_length ≢ none
      pub app_queue :
          Fit 2 → QueueApi.create (queues Message) g_app_queue app_message_queue_length ≢ none
      pub tx_queue :
          Fit 3 → QueueApi.create (queues Message) g_uart_tx_queue uart_tx_queue_length ≢ none
      pub actuator_queue :
          Fit 4
          → QueueApi.create (queues ActuatorCommand) g_actuator_queue actuator_queue_length ≢ none
      pub tasks : TasksGranted 5 created_tasks
      pub idle_task : Fit 10 → kernel.starts ≡ true

-- The sizes of a 32-bit processor and of the kernel's structures, generously.
pub record Small (z : Sizes) : Type 0 where
  pub message : z.message ≤ 64
  pub command : z.command ≤ 32
  pub queue : z.queue ≤ 128
  pub task : z.task ≤ 256
  pub heap : z.heap ≤ 64
  pub block : z.block ≤ 16

-- Every task is made, as it fits.
made_whole :
    (kernel : Kernel) (ts : List TaskCreated)
    → All (λ t. kernel.creates t ≡ true) ts
    → made kernel ts ≡ ts
made_whole kernel [] h = refl
made_whole kernel (t ∷ ts) (h, hs) = rw (made_whole kernel ts hs, h) refl

module _ (queues : (A : Type 0) → QueueApi A) (gpio : Gpio) (env : AppEnv) (z : Sizes)
    (small : Small z) (kernel : Kernel) (grants : Grants z queues kernel) where
  open gpio use {Pin}

  -- The heap is large enough for each call.
  nothing_Fails : ¬ Fails queues gpio env kernel
  nothing_Fails (no_isr_queue e) = grants.isr_queue (omega (arith, small)) e
  nothing_Fails (no_parser_queue e) = grants.parser_queue (omega (arith, small)) e
  nothing_Fails (no_app_queue e) = grants.app_queue (omega (arith, small)) e
  nothing_Fails (no_tx_queue e) = grants.tx_queue (omega (arith, small)) e
  nothing_Fails (no_actuator_queue e) = grants.actuator_queue (omega (arith, small)) e
  nothing_Fails (no_scheduler e) = let goes = grants.idle_task (omega (arith, small)) in cc

  all_made : made kernel created_tasks ≡ created_tasks
  all_made =
      let (rx, (parser, (app, (actuators, (tx, none_left))))) = grants.tasks in
      made_whole kernel created_tasks (
        rx (omega (arith, small)),
        (
          parser (omega (arith, small)),
          (
            app (omega (arith, small)),
            (actuators (omega (arith, small)), (tx (omega (arith, small)), tt)),
          ),
        ),
      )

  -- The heap of FreeRTOSConfig.h is large enough: with sizes that are not above those of `Small`, and a
  -- heap that grants what still fits into it, the system runs after power-on, and with all of its five
  -- tasks, which `tasks_start` does not check.
  pub main-Runs :
      (locals : Locals) (early : List ℕ) (app : AppState) (pin : Pin)
      → length locals.parser.body ≡ max_body_size + 1
      → (start : System queues gpio) × ((main queues gpio locals kernel early app pin).outcome
          ≡ running start created_tasks)
  main-Runs locals early app pin size =
      elim ((main-Booted queues gpio env locals early size app pin kernel).outcome) [
        | inl (why, stops) ↦ absurd (nothing_Fails why)
        | inr k ↦ (k.state, rw all_made at k.runs)
      ]
