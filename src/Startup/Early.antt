-- ===== src/Startup/Early.antt =====
-- firmware/drivers/uart_comm.c: the interrupt before `uart_comm_set_rx_queue`.
use tp5_borda_rojas.Base.{ℕ, ◌+◌, ◌^◌, ◌<◌, none, List, [], ◌∷◌, ◌≡◌, refl, arith, length, u32}
use tp5_borda_rojas.Queue.{QueueApi}
use tp5_borda_rojas.Uart.{Uart, usart1_isr, isr_burst}

module _ (api : QueueApi ℕ) where
  -- Without a queue the interrupt only counts.
  pub record Unheard (u : Uart api) (words : List ℕ) (after : Uart api) : Type 0 where
    pub rx_queue : after.rx_queue ≡ none
    pub irq : after.rx_irq_count ≡ u32 (u.rx_irq_count + length words)
    pub drops : after.rx_drop_count ≡ u.rx_drop_count

  pub isr_burst-Unheard :
      (words : List ℕ) (u : Uart api)
      → u.rx_queue ≡ none
      → u.rx_irq_count < 2 ^ 32
      → Unheard u words (isr_burst api u words)
  unfolding isr_burst usart1_isr
  isr_burst-Unheard [] u e h = record { rx_queue = e; irq = omega arith; drops = refl }
  isr_burst-Unheard (w ∷ words) u e h = rw e (
      let rest =
        isr_burst-Unheard words
          (record {
            rx_queue = none;
            rx_irq_count = u32 (u.rx_irq_count + 1);
            rx_drop_count = u.rx_drop_count;
          })
          refl (omega arith) in
      record { rx_queue = rest.rx_queue; irq = omega (arith, rest.irq); drops = rest.drops })
