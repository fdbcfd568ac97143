-- ===== src/Lib.antt =====
-- The firmware of TP5: a Blue Pill that receives commands in frames over USART1, obeys them and answers.
--
-- A byte arrives in `usart1_isr` (firmware/drivers/uart_comm.c), which puts it into a queue. A task passes
-- it on to `task_parser` (firmware/app/tasks.c), which feeds it to the incremental parser
-- (firmware/protocol/parser.c); a message that is ready goes to `task_app`, whose `app_handle_message`
-- (firmware/app/app.c) answers it through the transmit queue and commands the LED through another
-- queue (firmware/app/actuators.c). `task_uart_tx` encodes what is in the transmit queue
-- (firmware/protocol/protocol.c) and puts it on the line. `task_telemetry` sends the values of
-- firmware/app/sensors.c.
--
-- Parts and files:
--   Config       the constants of firmware/config/app_config.h, firmware/config/FreeRTOSConfig.h and
--                firmware/protocol/protocol.h.
--   Base         strings, arrays and machine words of C. A string is the list of the bytes in front
--                of its terminator; `strlen`, `strcmp`, `strncmp`, `strncpy` and `snprintf` are those
--                of the C standard, on such lists. `uint8_t` and `uint32_t` wrap round (`u8`, `u32`).
--   Protocol     firmware/protocol/protocol.c. Message: `protocol_message_t`, `protocol_type_to_text`,
--                `protocol_type_from_text`, `protocol_message_set`; Hex: `hex_char_to_nibble`,
--                `nibble_to_hex`; Checksum: `protocol_compute_checksum`; Encode:
--                `protocol_encode_frame`; Validate: `protocol_validate_frame`; Decode:
--                `protocol_decode_body`. Spec says what a frame of a message is, from
--                docs/PROTOCOL.md; RoundTrip puts the encoder and the validator together, Canonical says
--                which of the frames of a message is written, OneByte what a changed byte does.
--   Parser       firmware/protocol/parser.c. `consume` is `parser_consume_byte` on a parser that is
--                there, with one function `on_…` for each case of its switch. Reading says which bytes
--                a parser in each state has kept. Stream is the parser on many bytes; Stream/Lines,
--                Stream/Segments, Stream/Garbled and Stream/Recovery are about frames with noise between
--                them, where the messages come from, what a changed byte does, and what a pause does.
--   App          firmware/app/app.c. `handle_message` is `app_handle_message`: its result is the
--                counters and the calls of `xQueueSend` that it makes, in their order.
--   Actuators    `actuators_apply_command` on the pin.
--   Sensors      `sensors_build_telemetry_payload`.
--   Queue        the kernel's queues, as an interface with its documented behaviour.
--   Handles      the handles of the five queues, `g_uart_rx_isr_queue` to `g_actuator_queue`.
--   Uart         `usart1_isr` with its counters and their getters, and `uart_comm_send_bytes`.
--   Tasks        a round of the loops of `task_parser`, `task_uart_tx` and `task_telemetry`; Session:
--                the loops of `task_parser`, `task_app`, `task_actuators` and `task_uart_tx` on what
--                their queues hold, one task after another, from the bytes received to the replies;
--                Intake: `usart1_isr`, `task_uart_rx` and `task_parser` with the queues between them,
--                in any order of their steps.
--   Firmware     the whole system: the interrupt, the five tasks that run, and the five queues between
--                them. `act` is one step: a task between two calls of the kernel, or an interrupt. A task
--                keeps what it still has to send, and a step gives `none` where the call of the kernel
--                has to wait. `Reach` are the states that come in any order of the steps, whatever the
--                scheduler chooses. Turns describes each step by what it moves; Flow says where each
--                byte, message, reply and command is; Sized, Counted, Waits, Stuck, Measure, Settle and
--                Led are about the lengths of the queues, the counters, the waits in the calls of the
--                kernel, the work left, running on, and the LED; Refine compares with Session, Outside
--                and Finish put it together.
--   Schedule     the priorities of `tasks_start`: which steps the kernel's scheduler allows, what a task
--                of a low priority finds, how many interrupts may come before a byte is dropped, and (Next)
--                that where some task can go on, the priorities let one.
--   Board        the calls of libopencm3 with which `main`, `system_init_board`, `actuators_init` and
--                `uart_comm_init` set up the hardware.
--   Startup      `main` and `tasks_start`, from power-on to a system that runs or has halted, and to what
--                the running system does; Heap: whether the queues and tasks fit into the kernel's heap;
--                Lines: from the frames that come in to their replies.
--   Tests        runs of the code, and each theorem applied at a concrete input.
--
-- Conventions. A pointer that may be null is an Option. A function that writes through a pointer
-- returns what the pointer points to then; what a local array holds before it is written is an
-- argument (`garbage`, `old`). The array `body` of the parser is all of its 53 cells, with what earlier
-- frames left there. All loops are structural recursion, on a list or on the rounds left, so that no
-- fuel is needed. Counters of 32 bits wrap round, and the theorems on them say so.
--
-- Steps of the system. A handler of `task_app` runs in one step and its sends follow one by one, as do the
-- message of `task_parser` and the byte of `task_uart_rx`; a frame is put on the line in one step, since no
-- other task writes to the line. What a status message reads from the counters of the other modules is
-- given by the environment for each message handled (`AppEnv.counters`), since interrupts and the parser
-- may move them while the seven values are read. A send goes to the queue that its handle
-- names: a reply with `g_uart_tx_queue` and a command with `g_actuator_queue` reach the tasks that read these
-- queues, and one that is sent with another handle is lost (`lost`).
--
-- Priorities. The theorems on Firmware hold for every order of the steps, those on Schedule for the orders
-- in which a task runs only while each task of a higher priority waits in a call of the kernel; an interrupt
-- may come at any time.
--
-- Not modelled: the kernel of FreeRTOS and libopencm3 under firmware/third_party, which are other
-- projects: their queues (`QueueApi`), the output pin (`Gpio`), and whether a task is made and the
-- scheduler starts (`Kernel`) are parameters, with their documented behaviour, that of the heap among it
-- (`Grants`); the sizes that the compiler and the kernel choose are parameters too (`Sizes`). Time slices
-- between tasks of one priority, and how long a step takes; `task_telemetry` beside the other tasks, since
-- no task runs it; the ROS 2 bridge and the scripts, which run elsewhere.
pub mod Base
pub mod Config
pub mod Protocol
pub mod Parser
pub mod Sensors
pub mod Actuators
pub mod App
pub mod Queue
pub mod Handles
pub mod Uart
pub mod Tasks
pub mod Board
pub mod Firmware
pub mod Startup
pub mod Schedule
mod Tests
