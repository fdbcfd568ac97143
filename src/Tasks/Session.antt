-- ===== src/Tasks/Session.antt =====
-- firmware/app/tasks.c: the loops of `task_app`, `task_actuators` and `task_uart_tx` on the items that
-- their queues hold, each task until its queue is empty.
pub mod History
pub mod Laws
pub mod Prefix
use tp5_borda_rojas.Handles.{g_uart_tx_queue, g_actuator_queue}
use tp5_borda_rojas.Base.{
  ℕ, ◌+◌, suc, Option, none, some, List, [], ◌∷◌, ◌++◌, Bytes, ◌==◌, if◌then◌else◌,
}
use tp5_borda_rojas.Config.{max_frame_size}
use tp5_borda_rojas.Protocol.Message.{Message}
use tp5_borda_rojas.Protocol.Encode.{Encoded, encode_frame}
use tp5_borda_rojas.Actuators.{ActuatorCommand, Gpio}
use tp5_borda_rojas.App.{AppState, Counters, Send, Handled, handle_message}
use tp5_borda_rojas.App.Replies.{messages_of, commands_of}
use tp5_borda_rojas.App.Led.{run_commands}
use tp5_borda_rojas.Tasks.ParserTask.{ParserTask, parser_rounds}
use tp5_borda_rojas.Tasks.UartTx.{tx_round}

-- What does not change while the tasks run: what round number `i` of `task_app` reads
-- from the counters of the other modules, and what its local message holds.
pub record AppEnv : Type 0 where
  pub counters : ℕ → Counters
  pub garbage : Message

-- `task_app` from its round `i` on.
unfoldable pub app_rounds : AppEnv → ℕ → AppState → List Message → AppState × List Send
app_rounds env i s [] = (s, [])
app_rounds env i s (m ∷ ms) =
    let h =
      handle_message s (env.counters i) env.garbage (some m) g_uart_tx_queue g_actuator_queue in
    let later = app_rounds env (suc i) h.state ms in (later.0, h.sends ++ later.1)

abbrev pub kept {ℓ} : {A : Type ℓ} → A → Option A → A
kept old none = old
kept old (some a) = a

-- `task_uart_tx`, with the buffer and the length that a round leaves for the next one.
unfoldable pub tx_rounds : List Message → Bytes → ℕ → Bytes
tx_rounds [] old n = []
tx_rounds (m ∷ ms) old n =
    let e = encode_frame (some m) (some old) max_frame_size (some n) in
    tx_round m old n ++ tx_rounds ms (kept old e.frame) (kept n e.frame_length)

-- The messages that `task_uart_tx` receives: those that were sent to its queue.
abbrev pub replies : List (ℕ × Message) → List Message
replies [] = []
replies ((q, m) ∷ ms) = let rest = replies ms in if q == g_uart_tx_queue then m ∷ rest else rest

-- What bytes received lead to: the counters of the application, the bytes on the line, and the commands
-- for the actuators.
pub record Session : Type 0 where
  pub task : ParserTask
  pub app : AppState
  pub line : Bytes
  pub commands : List (ℕ × ActuatorCommand)

unfoldable pub run_session : AppEnv → ParserTask → AppState → Bytes → Bytes → ℕ → Session
run_session env t s bytes old n =
    let parsed = parser_rounds t bytes in
    let handled = app_rounds env 0 s parsed.1 in
    record {
      task = parsed.0;
      app = handled.0;
      line = tx_rounds (replies (messages_of handled.1)) old n;
      commands = commands_of handled.1;
    }
