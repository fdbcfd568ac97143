-- ===== src/Tasks/UartTx.antt =====
-- firmware/app/tasks.c: `task_uart_tx`, on a message that it receives.
pub mod Laws
use tp5_borda_rojas.Base.{
  ℕ, ◌-◌, Bool, true, false, ◌&&◌, Option, none, some, [], ◌∷◌, ◌++◌, ◌==◌, ltb, if◌then◌else◌,
  Bytes, cell,
}
use tp5_borda_rojas.Config.{max_frame_size, carriage_return}
use tp5_borda_rojas.Protocol.Message.{Message}
use tp5_borda_rojas.Protocol.Encode.{Encoded, encode_frame}
use tp5_borda_rojas.Uart.{send_bytes}

-- `UART_TX_CRLF_FOR_TERMINAL` is 1.
send_frame : Bytes → ℕ → Bytes
send_frame frame n =
    if ltb 0 n && cell frame (n - 1) == b'\n'
    then send_bytes (some frame) (n - 1) ++ send_bytes (some (b'\r' ∷ b'\n' ∷ [])) 2
    else send_bytes (some frame) n

send_if_encoded : Bool → Option Bytes → Option ℕ → Bytes
send_if_encoded true (some frame) (some n) = send_frame frame n
send_if_encoded _ _ _ = []

-- The bytes put on the line for a message; `old` and `n` are the buffer and length of the last round.
unfoldable pub tx_round : Message → Bytes → ℕ → Bytes
unfolding send_if_encoded send_frame
tx_round m old n =
    let e = encode_frame (some m) (some old) max_frame_size (some n) in
    send_if_encoded e.ok e.frame e.frame_length
