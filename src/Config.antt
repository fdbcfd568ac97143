-- ===== src/Config.antt =====
-- Constants of firmware/config/app_config.h, firmware/config/FreeRTOSConfig.h and firmware/protocol/protocol.h
-- that the code uses.
use tp5_borda_rojas.Base.{ℕ, ◌+◌, ◌*◌, ◌^◌}

abbrev pub uart_baudrate : ℕ
uart_baudrate = 115200

abbrev pub uart_rx_isr_queue_length : ℕ
uart_rx_isr_queue_length = 64

abbrev pub parser_input_queue_length : ℕ
parser_input_queue_length = 64

abbrev pub app_message_queue_length : ℕ
app_message_queue_length = 8

abbrev pub uart_tx_queue_length : ℕ
uart_tx_queue_length = 8

abbrev pub actuator_queue_length : ℕ
actuator_queue_length = 8

-- An interrupt may call the kernel if its priority is not below this number; `5 << 4` in the source.
abbrev pub max_syscall_interrupt_priority : ℕ
max_syscall_interrupt_priority = 5 * 2 ^ 4

abbrev pub max_priorities : ℕ
max_priorities = 6

-- `StackType_t` has four bytes; a depth counts words.
abbrev pub minimal_stack_size : ℕ
minimal_stack_size = 128

abbrev pub total_heap_size : ℕ
total_heap_size = 10 * 1024

abbrev pub max_task_name_length : ℕ
max_task_name_length = 16

abbrev pub max_payload_length : ℕ
max_payload_length = 48

abbrev pub max_frame_length : ℕ
max_frame_length = 64

abbrev pub start_char : ℕ
start_char = b'@'

abbrev pub end_char : ℕ
end_char = b'\n'

abbrev pub separator_char : ℕ
separator_char = b':'

abbrev pub carriage_return : ℕ
carriage_return = b'\r'

abbrev pub type_length : ℕ
type_length = 3

abbrev pub max_body_size : ℕ
max_body_size = type_length + 1 + max_payload_length

abbrev pub max_frame_size : ℕ
max_frame_size = max_frame_length
