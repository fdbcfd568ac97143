-- ===== src/Startup/Laws.antt =====
-- firmware/main.c and `tasks_start`: what powering on should come to.
use tp5_borda_rojas.Handles.{
  g_actuator_queue, g_app_queue, g_parser_input_queue, g_uart_rx_isr_queue, g_uart_tx_queue,
}
use tp5_borda_rojas.Base.{ℕ, ◌<◌, ◌≤◌, false, none, List, [], ◌∷◌, ◌≡◌, ◌⊎◌, All, length, u32}
use tp5_borda_rojas.Config.{
  uart_rx_isr_queue_length, parser_input_queue_length, app_message_queue_length,
  uart_tx_queue_length, actuator_queue_length, max_syscall_interrupt_priority, max_priorities,
  max_task_name_length,
}
use tp5_borda_rojas.Protocol.Message.{Message}
use tp5_borda_rojas.Parser.Reading.{IsReading}
use tp5_borda_rojas.Queue.{QueueApi}
use tp5_borda_rojas.Actuators.{ActuatorCommand, Gpio}
use tp5_borda_rojas.Actuators.Laws.{lit}
use tp5_borda_rojas.Tasks.Session.{AppEnv}
use tp5_borda_rojas.Board.{
  Peripheral, usart1, Call, rcc_clock_setup_pll, rcc_periph_clock_enable, gpio_set_mode, gpio_set,
  usart_set_baudrate, usart_set_databits, usart_set_stopbits, usart_set_mode, usart_set_parity,
  usart_set_flow_control, nvic_set_priority, nvic_enable_irq, usart_enable_rx_interrupt,
  usart_enable,
}
use tp5_borda_rojas.Firmware.{System}
use tp5_borda_rojas.Firmware.Sized.{Lengths}
use tp5_borda_rojas.Firmware.Ready.{Ready}
use tp5_borda_rojas.Startup.{
  Outcome, halted, running, PoweredOn, TaskCreated, Kernel, made, created_tasks,
}

-- The lengths of app_config.h.
abbrev pub config_lengths : Lengths
config_lengths = record {
  isr_queue = uart_rx_isr_queue_length;
  parser_queue = parser_input_queue_length;
  app_queue = app_message_queue_length;
  tx_queue = uart_tx_queue_length;
  actuator_queue = actuator_queue_length;
}

-- The peripheral whose registers a call writes.
abbrev written : Call → List Peripheral
written rcc_clock_setup_pll = []
written (rcc_periph_clock_enable p) = []
written (gpio_set_mode p m c n) = p ∷ []
written (gpio_set p n) = p ∷ []
written (usart_set_baudrate p n) = p ∷ []
written (usart_set_databits p n) = p ∷ []
written (usart_set_stopbits p n) = p ∷ []
written (usart_set_mode p) = p ∷ []
written (usart_set_parity p) = p ∷ []
written (usart_set_flow_control p) = p ∷ []
written (nvic_set_priority p n) = []
written (nvic_enable_irq p) = []
written (usart_enable_rx_interrupt p) = p ∷ []
written (usart_enable p) = p ∷ []

abbrev IsOn : Peripheral → List Peripheral → Type 0
IsOn p [] = ⊥
IsOn p (q ∷ on) = (p ≡ q) ⊎ IsOn p on

-- Each peripheral has its clock before its registers are written.
abbrev pub Clocked : List Peripheral → List Call → Type 0
Clocked on [] = Unit
Clocked on (rcc_periph_clock_enable p ∷ calls) = Clocked (p ∷ on) calls
Clocked on (c ∷ calls) = All (λ p. IsOn p on) (written c) × Clocked on calls

-- No interrupt gets a priority from which it may not call the kernel, and each has been given its priority
-- before it is enabled.
abbrev pub MayCallKernel : List Peripheral → List Call → Type 0
MayCallKernel given [] = Unit
MayCallKernel given (nvic_set_priority p n ∷ calls) =
    (max_syscall_interrupt_priority ≤ n) × MayCallKernel (p ∷ given) calls
MayCallKernel given (nvic_enable_irq p ∷ calls) = IsOn p given × MayCallKernel given calls
MayCallKernel given (c ∷ calls) = MayCallKernel given calls

abbrev Called : Call → List Call → Type 0
Called c [] = ⊥
Called c (d ∷ calls) = (c ≡ d) ⊎ Called c calls

-- The interrupt of the port is enabled, in the port and in the interrupt controller, and the port is on.
abbrev pub Receives : List Call → Type 0
Receives calls =
    Called (nvic_enable_irq usart1) calls
    × Called (usart_enable_rx_interrupt usart1) calls
    × Called (usart_enable usart1) calls

-- A task with a priority and a name that the kernel is configured for.
abbrev pub TaskFits : TaskCreated → Type 0
TaskFits t = (t.priority < max_priorities) × (length t.name < max_task_name_length)

module _ (queues : (A : Type 0) → QueueApi A) (gpio : Gpio) (env : AppEnv) where
  open gpio use {Pin}

  -- Why the system cannot start: the heap has no room for one of the five queues, or the scheduler returns.
  pub data Fails (kernel : Kernel) : Type 0 where
    no_isr_queue :
        QueueApi.create (queues ℕ) g_uart_rx_isr_queue uart_rx_isr_queue_length ≡ none
        → Fails kernel
    no_parser_queue :
        QueueApi.create (queues ℕ) g_parser_input_queue parser_input_queue_length ≡ none
        → Fails kernel
    no_app_queue :
        QueueApi.create (queues Message) g_app_queue app_message_queue_length ≡ none → Fails kernel
    no_tx_queue :
        QueueApi.create (queues Message) g_uart_tx_queue uart_tx_queue_length ≡ none → Fails kernel
    no_actuator_queue :
        QueueApi.create (queues ActuatorCommand) g_actuator_queue actuator_queue_length ≡ none
        → Fails kernel
    no_scheduler : kernel.starts ≡ false → Fails kernel

  -- The system that starts.
  pub record Started (kernel : Kernel) (early : List ℕ) (o : Outcome queues gpio) : Type 0 where
    pub state : System queues gpio
    pub runs : o ≡ running state (made kernel created_tasks)
    pub tasks_fit : All TaskFits created_tasks
    pub ready : Ready queues gpio env config_lengths state
    pub parser : IsReading state.parser.parser []
    pub bytes : state.parser.byte_count ≡ 0
    pub messages : state.parser.message_count ≡ 0
    pub errors : state.parser.error_count ≡ 0
    pub app : state.app ≡ record { rx_count = 0; error_count = 0 }
    pub dark : lit gpio state.pin ≡ false
    pub silent : state.line ≡ []
    pub irq : state.uart.rx_irq_count ≡ u32 (length early)
    pub drops : state.uart.rx_drop_count ≡ 0

  -- What comes of powering on, and why.
  pub record Booted (kernel : Kernel) (early : List ℕ) (b : PoweredOn queues gpio) : Type 0 where
    pub clocked : Clocked [] b.calls
    pub may_call_kernel : MayCallKernel [] b.calls
    pub receives : Receives b.calls
    pub outcome : (Fails kernel × (b.outcome ≡ halted)) ⊎ Started kernel early b.outcome
