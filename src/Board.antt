-- ===== src/Board.antt =====
-- firmware/main.c, firmware/platform/system_init.c, firmware/app/actuators.c, firmware/app/sensors.c and
-- firmware/drivers/uart_comm.c: the calls of libopencm3 that set up the hardware, in their order.
use tp5_borda_rojas.Base.{ℕ, List, [], ◌∷◌, ◌++◌}
use tp5_borda_rojas.Config.{uart_baudrate}

-- The peripherals, with the clock `RCC_…` of each.
pub data Peripheral : Type 0 where
  afio gpioa gpioc usart1 : Peripheral

pub data PinMode : Type 0 where
  input output_2_mhz output_50_mhz : PinMode

pub data PinConfiguration : Type 0 where
  output_pushpull output_altfn_pushpull input_pull_updown : PinConfiguration

-- The functions of libopencm3 that are called; a pin is given by its number. `usart_set_stopbits` is called
-- for one bit, `usart_set_mode` for both directions, `usart_set_parity` and `usart_set_flow_control` for none.
pub data Call : Type 0 where
  rcc_clock_setup_pll : Call
  rcc_periph_clock_enable : Peripheral → Call
  gpio_set_mode : Peripheral → PinMode → PinConfiguration → ℕ → Call
  gpio_set : Peripheral → ℕ → Call
  usart_set_baudrate usart_set_databits usart_set_stopbits : Peripheral → ℕ → Call
  usart_set_mode usart_set_parity usart_set_flow_control : Peripheral → Call
  nvic_set_priority : Peripheral → ℕ → Call
  nvic_enable_irq : Peripheral → Call
  usart_enable_rx_interrupt usart_enable : Peripheral → Call

abbrev pub system_init_board : List Call
system_init_board = rcc_periph_clock_enable afio ∷ []

abbrev pub actuators_init : List Call
actuators_init =
    rcc_periph_clock_enable gpioc
    ∷ gpio_set_mode gpioc output_2_mhz output_pushpull 13
    ∷ gpio_set gpioc 13
    ∷ []

abbrev pub uart_comm_init : List Call
uart_comm_init =
    rcc_periph_clock_enable gpioa
    ∷ rcc_periph_clock_enable usart1
    ∷ gpio_set_mode gpioa output_50_mhz output_altfn_pushpull 9
    ∷ gpio_set_mode gpioa input input_pull_updown 10
    ∷ gpio_set gpioa 10
    ∷ usart_set_baudrate usart1 uart_baudrate
    ∷ usart_set_databits usart1 8
    ∷ usart_set_stopbits usart1 1
    ∷ usart_set_mode usart1
    ∷ usart_set_parity usart1
    ∷ usart_set_flow_control usart1
    ∷ nvic_set_priority usart1 80
    ∷ nvic_enable_irq usart1
    ∷ usart_enable_rx_interrupt usart1
    ∷ usart_enable usart1
    ∷ []

abbrev pub sensors_init : List Call
sensors_init = []

-- What `main` calls before `tasks_start`; `app_init` calls nothing.
abbrev pub board_init : List Call
board_init =
    rcc_clock_setup_pll
    ∷ (system_init_board ++ (actuators_init ++ (sensors_init ++ uart_comm_init)))
