-- ===== src/Uart/Laws.antt =====
-- firmware/drivers/uart_comm.c: bursts of `usart1_isr`, and the loop of `uart_comm_send_bytes`.
use tp5_borda_rojas.Base.{
  ℕ, zero, suc, ◌+◌, ◌-◌, ◌^◌, ◌≤◌, ◌<◌, true, some, List, [], ◌∷◌, ◌++◌, append-nil, append_assoc,
  ◌≡◌, inl, inr, refl, ap, ◌∙◌, arith, Bytes, length, length-append, take, u8, u32, ltb, ltb→lt,
  not_ltb→le, Bool-cases,
}
use tp5_borda_rojas.Queue.{QueueApi}
use tp5_borda_rojas.Uart.{Uart, usart1_isr, isr_burst, send_bytes}

-- The bytes of the words that the data register held.
abbrev pub bytes_of : List ℕ → Bytes
bytes_of [] = []
bytes_of (w ∷ ws) = u8 w ∷ bytes_of ws

take-nil : (n : ℕ) → take {A = ℕ} n [] ≡ []
take-nil zero = refl
take-nil (suc n) = refl

module _ (api : QueueApi ℕ) where
  open api use {Queue, items, room, send, send_full, send_room}

  -- What a burst leaves of a driver with queue `q`: the bytes that found room stand behind those in the
  -- queue, in their order, and the others are counted.
  pub record Burst (u : Uart api) (q : Queue) (words : List ℕ) (after : Uart api) : Type 0 where
    pub queue : Queue
    pub attached : after.rx_queue ≡ some queue
    pub same_room : room queue ≡ room q
    pub kept : items queue ≡ items q ++ take (room q - length (items q)) (bytes_of words)
    pub irq : after.rx_irq_count ≡ u32 (u.rx_irq_count + length words)
    pub drops :
        after.rx_drop_count ≡ u32 (u.rx_drop_count + (length words - (room q - length (items q))))

  isr_room :
      (u : Uart api) (q : Queue) (w : ℕ)
      → u.rx_queue ≡ some q
      → length (items q) < room q
      → (q' : Queue) × (usart1_isr api u true w
          ≡ record u { rx_queue = some q'; rx_irq_count = u32 (u.rx_irq_count + 1) })
        × (items q' ≡ items q ++ (u8 w ∷ []))
        × (room q' ≡ room q)
  unfolding usart1_isr
  isr_room u q w e h = let (q', sent, i, r) = send_room q (u8 w) h in (q', rw (e, sent), i, r)

  isr_full :
      (u : Uart api) (q : Queue) (w : ℕ)
      → u.rx_queue ≡ some q
      → room q ≤ length (items q)
      → usart1_isr api u true w ≡ record u {
        rx_irq_count = u32 (u.rx_irq_count + 1);
        rx_drop_count = u32 (u.rx_drop_count + 1);
      }
  unfolding usart1_isr
  isr_full u q w e h = rw (e, send_full q (u8 w) h)

  -- With a queue attached and 32-bit counters, a burst of interrupts fills the queue in the order of the bytes and then drops: what finds room is
  -- kept, every interrupt is counted, and exactly the others are counted as dropped.
  pub isr_burst-Burst :
      (words : List ℕ) (u : Uart api) (q : Queue)
      → u.rx_queue ≡ some q
      → u.rx_irq_count < 2 ^ 32
      → u.rx_drop_count < 2 ^ 32
      → Burst u q words (isr_burst api u words)
  unfolding isr_burst
  isr_burst-Burst [] u q e h k = record {
    queue = q;
    attached = e;
    same_room = refl;
    kept = rw (take-nil (room q - length (items q)), append-nil);
    irq = omega arith;
    drops = omega arith;
  }
  isr_burst-Burst (w ∷ ws) u q e h k = elim (Bool-cases (ltb (length (items q)) (room q))) [
    | inl yes' ↦
        let (q', step, i, r) = isr_room u q w e (ground arith) in
        let rest =
          isr_burst-Burst ws (usart1_isr api u true w) q' (rw step) (rw step (omega arith))
            (rw step k) in
        let free : room q - length (items q) ≡ suc (room q' - length (items q')) =
          omega (arith, r, ap length i, length-append (items q) (u8 w ∷ []), ltb→lt _ _ yes') in
        record {
          queue = rest.queue;
          attached = rest.attached;
          same_room = rest.same_room ∙ r;
          kept =
              rest.kept
              ∙ ap (λ l. l ++ take (room q' - length (items q')) (bytes_of ws)) i
              ∙ rw (append_assoc, free);
          irq = rest.irq ∙ rw step (omega arith);
          drops = rest.drops ∙ rw (step, free) (omega arith);
        }
    | inr no' ↦
        let step = isr_full u q w e (ground arith) in
        let rest =
          isr_burst-Burst ws (usart1_isr api u true w) q (rw step e) (rw step (omega arith))
            (rw step (omega arith)) in
        let free : room q - length (items q) ≡ 0 = omega (arith, not_ltb→le _ _ no') in
        record {
          queue = rest.queue;
          attached = rest.attached;
          same_room = rest.same_room;
          kept = rest.kept ∙ rw free;
          irq = rest.irq ∙ rw step (omega arith);
          drops = rest.drops ∙ rw (step, free) (omega arith);
        }
  ]

-- The loop sends the bytes of the buffer in their order.
pub send_bytes-take : (xs : Bytes) (n : ℕ) → n ≤ length xs → send_bytes (some xs) n ≡ take n xs
unfolding send_bytes
send_bytes-take xs zero h = refl
send_bytes-take [] (suc n) h = absurd (omega arith)
send_bytes-take (x ∷ xs) (suc n) h = ap (◌∷◌ x) (send_bytes-take xs n (omega arith))
