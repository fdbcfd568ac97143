-- ===== src/Uart.antt =====
-- firmware/drivers/uart_comm.c: the interrupt handler with its counters, and the transmission loop. The
-- registers of USART1 are libopencm3's: the handler's arguments are what `usart_get_flag` and `usart_recv`
-- return, and the bytes given to `usart_send_blocking` are the loop's result.
pub mod Laws
use tp5_borda_rojas.Base.{
  ℕ, zero, suc, ◌+◌, Bool, true, not, List, Option, none, some, [], ◌∷◌, Bytes, cell, drop, u8, u32,
  if◌then◌else◌, length,
}
use tp5_borda_rojas.Queue.{QueueApi}

module _ (api : QueueApi ℕ) where
  open api use {Queue, send}

  -- The file's variables; the queue is `none` while `g_uart_rx_queue` is null.
  pub record Uart : Type 0 where
    pub rx_queue : Option Queue
    pub rx_irq_count : ℕ
    pub rx_drop_count : ℕ

  unfoldable pub set_rx_queue : Uart → Option Queue → Uart
  set_rx_queue u queue = record u { rx_queue = queue }

  -- The variable's queue after a send that may have failed, and the count of bytes dropped.
  abbrev enqueued : Uart → Queue → Option Queue → Uart
  enqueued u q (some q') = record u { rx_queue = some q' }
  enqueued u q none = record u { rx_drop_count = u32 (u.rx_drop_count + 1) }

  abbrev enqueue : Uart → Option Queue → ℕ → Uart
  enqueue u none byte = u
  enqueue u (some q) byte = enqueued u q (send q byte)

  abbrev pub get_rx_irq_count : Uart → ℕ
  get_rx_irq_count u = u.rx_irq_count

  abbrev pub get_rx_drop_count : Uart → ℕ
  get_rx_drop_count u = u.rx_drop_count

  -- `flag` is whether RXNE is set, and `word` what the data register holds.
  unfoldable pub usart1_isr : Uart → Bool → ℕ → Uart
  usart1_isr u flag word =
      if not flag
      then u
      else let byte = u8 word in
        let counted : Uart = record u { rx_irq_count = u32 (u.rx_irq_count + 1) } in
        enqueue counted counted.rx_queue byte

  -- The handler on a burst of words, with no task running in between.
  unfoldable pub isr_burst : Uart → List ℕ → Uart
  isr_burst u [] = u
  isr_burst u (w ∷ ws) = isr_burst (usart1_isr u true w) ws

-- The loop of `uart_comm_send_bytes`, with the rounds left.
send_loop : Bytes → ℕ → Bytes
send_loop data' zero = []
send_loop data' (suc left) = cell data' 0 ∷ send_loop (drop 1 data') left

-- The bytes sent, for a pointer that may be null.
unfoldable pub send_bytes : Option Bytes → ℕ → Bytes
unfolding send_loop
send_bytes none n = []
send_bytes (some data') n = send_loop data' n
