-- ===== src/Startup/Boot.antt =====
-- firmware/main.c and `tasks_start`: the system that the scheduler starts, or none at all.
use tp5_borda_rojas.Handles.{
  g_actuator_queue, g_app_queue, g_parser_input_queue, g_uart_rx_isr_queue, g_uart_tx_queue,
}
use tp5_borda_rojas.Base.{
  ℕ, ◌+◌, some, List, [], ◌≡◌, inl, inr, refl, ap, arith, length, Option-cases, Bool-cases,
}
use tp5_borda_rojas.Config.{
  uart_rx_isr_queue_length, parser_input_queue_length, app_message_queue_length,
  uart_tx_queue_length, actuator_queue_length, max_body_size,
}
use tp5_borda_rojas.Protocol.Message.{Message}
use tp5_borda_rojas.Parser.Consume.{parser_init-IsReading}
use tp5_borda_rojas.Queue.{QueueApi}
use tp5_borda_rojas.Queue.Laws.{Fits}
use tp5_borda_rojas.Actuators.{ActuatorCommand, Gpio, actuators_init}
use tp5_borda_rojas.App.{AppState, app_init}
use tp5_borda_rojas.Uart.{Uart, isr_burst, set_rx_queue}
use tp5_borda_rojas.Tasks.Session.{AppEnv}
use tp5_borda_rojas.Firmware.Ready.{Ready}
use tp5_borda_rojas.Startup.Early.{isr_burst-Unheard}
use tp5_borda_rojas.Startup.{
  Locals, Kernel, running, made, created_tasks, tasks_start, at_start, uart_zero, main,
}
use tp5_borda_rojas.Startup.Laws.{
  config_lengths, no_isr_queue, no_parser_queue, no_app_queue, no_tx_queue, no_actuator_queue,
  no_scheduler, Started, Booted,
}

module _ (queues : (A : Type 0) → QueueApi A) (gpio : Gpio) (env : AppEnv) where
  open gpio use {Pin}

  -- A new queue is empty.
  new :
      {A : Type 0} (i n : ℕ) {q : QueueApi.Queue (queues A)}
      → QueueApi.create (queues A) i n ≡ some q
      → (QueueApi.items (queues A) q ≡ []) × Fits (queues A) n q
  new {A} i n e =
      let (empty, room) = QueueApi.create_empty (queues A) i n e in
      (empty, (room, omega (arith, ap length empty)))

  module _ (locals : Locals) (early : List ℕ) (size : length locals.parser.body ≡ max_body_size + 1)
      (app : AppState) (pin : Pin) where
    abbrev pub uart : Uart (queues ℕ)
    uart = isr_burst (queues ℕ) (uart_zero queues gpio) early

    -- Queues that are new make a system that is ready.
    pub at_start-Ready :
        {isr input : QueueApi.Queue (queues ℕ)} {messages replies : QueueApi.Queue (queues Message)}
        {commands : QueueApi.Queue (queues ActuatorCommand)}
        → QueueApi.create (queues ℕ) g_uart_rx_isr_queue uart_rx_isr_queue_length ≡ some isr
        → QueueApi.create (queues ℕ) g_parser_input_queue parser_input_queue_length ≡ some input
        → QueueApi.create (queues Message) g_app_queue app_message_queue_length ≡ some messages
        → QueueApi.create (queues Message) g_uart_tx_queue uart_tx_queue_length ≡ some replies
        → QueueApi.create (queues ActuatorCommand) g_actuator_queue actuator_queue_length
          ≡ some commands
        → Ready queues gpio env config_lengths (
            at_start queues gpio locals uart
              (app_init app)
              (actuators_init gpio pin)
              isr
              input
              messages
              replies
              commands)
    unfolding set_rx_queue
    at_start-Ready {isr} a b c d e =
        let (isr_empty, isr_fits) = new g_uart_rx_isr_queue uart_rx_isr_queue_length a in
        let (input_empty, input_fits) = new g_parser_input_queue parser_input_queue_length b in
        let (messages_empty, messages_fits) = new g_app_queue app_message_queue_length c in
        let (replies_empty, replies_fits) = new g_uart_tx_queue uart_tx_queue_length d in
        let (commands_empty, commands_fits) = new g_actuator_queue actuator_queue_length e in
        record {
          queue = isr;
          attached = refl;
          idle = record {
            isr = λ q at. let same : isr ≡ q = cc in rw same at isr_empty;
            rx_held = refl;
            parser_queue = input_empty;
            parser_sends = refl;
            app_queue = messages_empty;
            app_sends = refl;
            tx_queue = replies_empty;
            actuator_queue = commands_empty;
          };
          first = refl;
          sized = record {
            isr = λ q at. let same : isr ≡ q = cc in rw same at isr_fits;
            parser = input_fits;
            app = messages_fits;
            tx = replies_fits;
            actuator = commands_fits;
          };
          roomy = record {
            parser = omega arith;
            app = omega arith;
            tx = omega arith;
            actuator = omega arith;
          };
        }

    started :
        (kernel : Kernel) {isr input : QueueApi.Queue (queues ℕ)}
        {messages replies : QueueApi.Queue (queues Message)}
        {commands : QueueApi.Queue (queues ActuatorCommand)}
        → QueueApi.create (queues ℕ) g_uart_rx_isr_queue uart_rx_isr_queue_length ≡ some isr
        → QueueApi.create (queues ℕ) g_parser_input_queue parser_input_queue_length ≡ some input
        → QueueApi.create (queues Message) g_app_queue app_message_queue_length ≡ some messages
        → QueueApi.create (queues Message) g_uart_tx_queue uart_tx_queue_length ≡ some replies
        → QueueApi.create (queues ActuatorCommand) g_actuator_queue actuator_queue_length
          ≡ some commands
        → Started queues gpio env kernel early (
            running
              (at_start queues gpio locals uart
                (app_init app)
                (actuators_init gpio pin)
                isr
                input
                messages
                replies
                commands)
              (made kernel created_tasks))
    unfolding set_rx_queue app_init actuators_init
    started kernel a b c d e =
        let (p, made, reading) = parser_init-IsReading locals.parser size in
        let counted =
          isr_burst-Unheard (queues ℕ) early (uart_zero queues gpio) refl (omega arith) in
        record {
          state = _;
          runs = refl;
          tasks_fit = ground arith;
          ready = at_start-Ready a b c d e;
          parser = rw made reading;
          bytes = refl;
          messages = refl;
          errors = refl;
          app = refl;
          dark = rw gpio.high_set refl;
          silent = refl;
          irq = omega (arith, counted.irq);
          drops = counted.drops;
        }

    -- From power-on, whatever the memory, with a parser of the right size in it, and whatever
    -- interrupts come early: each peripheral has its clock before it is set up, the interrupt is
    -- enabled, in the port, which is on, and in the interrupt controller, and only after it has got
    -- a priority from which it may call the kernel. Then either the heap has no room for one of the
    -- five queues, or the scheduler does not start, and a `configASSERT` halts the system; or it
    -- runs those of the five tasks that `xTaskCreate` has made, none being no reason to halt, with
    -- priorities and names that the kernel has room for, from a state where the queues are empty
    -- and have the lengths of app_config.h, the interrupt has its queue, the parser waits, all
    -- counters are 0 but that of the interrupts, the LED is dark and nothing has been sent.
    pub main-Booted :
        (kernel : Kernel)
        → Booted queues gpio env kernel early (main queues gpio locals kernel early app pin)
    unfolding main tasks_start
    main-Booted kernel = record {
      clocked = ground arith;
      may_call_kernel = ground arith;
      receives = ground arith;
      outcome =
          elim (Option-cases
            (QueueApi.create (queues ℕ) g_uart_rx_isr_queue uart_rx_isr_queue_length)) [
              | inl a ↦ inl (no_isr_queue a, rw a refl)
              | inr (q, a) ↦
                  elim (Option-cases
                    (QueueApi.create (queues ℕ) g_parser_input_queue parser_input_queue_length)) [
                      | inl b ↦ inl (no_parser_queue b, rw (a, b) refl)
                      | inr (r, b) ↦
                          elim (Option-cases (
                            QueueApi.create (queues Message) g_app_queue
                              app_message_queue_length)) [
                                | inl c ↦ inl (no_app_queue c, rw (a, b, c) refl)
                                | inr (m, c) ↦
                                    elim (Option-cases (
                                      QueueApi.create (queues Message) g_uart_tx_queue
                                        uart_tx_queue_length)) [
                                          | inl d ↦ inl (no_tx_queue d, rw (a, b, c, d) refl)
                                          | inr (t, d) ↦
                                              elim (Option-cases (
                                                QueueApi.create (queues ActuatorCommand)
                                                  g_actuator_queue actuator_queue_length)) [
                                                    | inl e ↦ inl (
                                                      no_actuator_queue e,
                                                      rw (a, b, c, d, e) refl,
                                                    )
                                                    | inr (o, e) ↦ elim (Bool-cases kernel.starts) [
                                                      | inl goes ↦ inr (
                                                          simp (a, b, c, d, e, goes)
                                                            (started kernel a b c d e))
                                                      | inr back ↦ inl (
                                                        no_scheduler back,
                                                        rw (a, b, c, d, e, back) refl,
                                                      )
                                                    ]
                                                  ]
                                        ]
                              ]
                    ]
            ];
    }
