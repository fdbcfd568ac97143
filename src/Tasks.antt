-- ===== src/Tasks.antt =====
-- firmware/app/tasks.c: one round of the loop of each task, between its `xQueueReceive` and its next one.
-- The kernel's queues are arguments (`Queue`), and the items that a round sends are its result.
pub mod ParserTask
pub mod UartTx
pub mod Telemetry
pub mod Session
pub mod Intake
