-- ===== src/Tasks/Telemetry.antt =====
-- firmware/app/tasks.c: a round of `task_telemetry`, which `tasks_start` does not create at present.
pub mod Laws
use tp5_borda_rojas.Base.{
  ℕ, ◌+◌, ◌/◌, ◌%◌, Bool, true, false, Option, none, some, List, [], ◌∷◌, ◌++◌, ◌==◌, if◌then◌else◌,
  Bytes, u32,
}
use tp5_borda_rojas.Protocol.Message.{Message}
use tp5_borda_rojas.App.{AppState, Counters, build_status_message, build_telemetry_message}

abbrev telemetry_period_ms : ℕ
telemetry_period_ms = 1000

abbrev status_period_ms : ℕ
status_period_ms = 5000

-- What a round leaves: the message, the counter, and what went to `g_uart_tx_queue`.
pub record TelemetryRound : Type 0 where
  pub message : Message
  pub counter : ℕ
  pub sends : List Message

abbrev sent_if : Bool × Option Message → List Message
sent_if (true, some m) = m ∷ []
sent_if _ = []

abbrev pointee : Message → Option Message → Message
pointee old none = old
pointee old (some m) = m

unfoldable pub telemetry_round : AppState → Counters → Bytes → Message → ℕ → TelemetryRound
telemetry_round s c garbage old counter =
    let built = build_telemetry_message garbage (some old) counter in
    let m = pointee old built.1 in
    let status = pointee m (build_status_message s c (some m)) in
    if counter % (status_period_ms / telemetry_period_ms) == 0
    then record {
      message = status;
      counter = u32 (counter + 1);
      sends = sent_if built ++ (status ∷ []);
    }
    else record { message = m; counter = u32 (counter + 1); sends = sent_if built }
