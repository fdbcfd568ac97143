-- ===== src/Handles.antt =====
-- firmware/app/tasks.c: the handles of the queues. `tasks_start` creates one for each of these variables, and
-- the tasks name a queue by its variable. A handle is the number of its creation; 0 is the null pointer.
use tp5_borda_rojas.Base.{ℕ}

abbrev pub g_uart_rx_isr_queue : ℕ
g_uart_rx_isr_queue = 1

abbrev pub g_parser_input_queue : ℕ
g_parser_input_queue = 2

abbrev pub g_app_queue : ℕ
g_app_queue = 3

abbrev pub g_uart_tx_queue : ℕ
g_uart_tx_queue = 4

abbrev pub g_actuator_queue : ℕ
g_actuator_queue = 5
