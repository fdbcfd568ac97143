-- ===== src/Firmware/Waits.antt =====
-- firmware/app/tasks.c: what each wait in a call of the kernel says of the queues.
use tp5_borda_rojas.Base.{
  ℕ, ◌≤◌, ◌<◌, Option, none, some, List, [], ◌∷◌, ◌≡◌, inl, inr, refl, ap, arith, length, ◌==◌,
  Bool-cases,
}
use tp5_borda_rojas.Handles.{g_uart_tx_queue, g_actuator_queue}
use tp5_borda_rojas.Protocol.Message.{Message}
use tp5_borda_rojas.Queue.{QueueApi}
use tp5_borda_rojas.Queue.Laws.{receive_cases, send_cases, Fits}
use tp5_borda_rojas.Actuators.{ActuatorCommand, Gpio}
use tp5_borda_rojas.App.{Send, send_message, send_command}
use tp5_borda_rojas.Tasks.Session.{AppEnv}
use tp5_borda_rojas.Firmware.{
  Action, rx_receive, rx_send, parse, parser_send, handle, app_send, transmit, actuate, System,
  ByteQueue, act,
}
use tp5_borda_rojas.Firmware.Sized.{Lengths, Sized}

-- Every queue has room for something.
pub record Roomy (n : Lengths) : Type 0 where
  pub parser : 0 < n.parser_queue
  pub app : 0 < n.app_queue
  pub tx : 0 < n.tx_queue
  pub actuator : 0 < n.actuator_queue

module _ (queues : (A : Type 0) → QueueApi A) (gpio : Gpio) (env : AppEnv) where
  abbrev State : Type 0
  State = System queues gpio

  -- The task cannot make this step: it waits.
  abbrev pub Waits : State → Action → Type 0
  Waits s a = act queues gpio env s a ≡ none

  -- A queue with room that is empty takes an item.
  must_send :
      {A : Type 0} (n : ℕ) (q : QueueApi.Queue (queues A)) (a : A)
      → 0 < n
      → Fits (queues A) n q
      → QueueApi.items (queues A) q ≡ []
      → (q' : QueueApi.Queue (queues A)) × (QueueApi.send (queues A) q a ≡ some q')
  must_send {A} n q a pos (same, fits) empty = elim (send_cases (queues A) q a) [
    | inl (e, over) ↦ absurd (omega (arith, ap length empty))
    | inr (q', e, h) ↦ (q', e)
  ]

  module _ (s : State) where
    pub tx_queue_empty : Waits s transmit → QueueApi.items (queues Message) s.tx_queue ≡ []
    unfolding act
    tx_queue_empty w = elim (receive_cases (queues Message) s.tx_queue) [
      | inl (e, empty) ↦ empty
      | inr (m, q', e, h) ↦ absurd (cc (rw e at w))
    ]

    pub actuator_queue_empty :
        Waits s actuate → QueueApi.items (queues ActuatorCommand) s.actuator_queue ≡ []
    unfolding act
    actuator_queue_empty w = elim (receive_cases (queues ActuatorCommand) s.actuator_queue) [
      | inl (e, empty) ↦ empty
      | inr (c, q', e, h) ↦ absurd (cc (rw e at w))
    ]

    pub app_queue_empty :
        Waits s handle → s.app_sends ≡ [] → QueueApi.items (queues Message) s.app_queue ≡ []
    unfolding act
    app_queue_empty w free = elim (receive_cases (queues Message) s.app_queue) [
      | inl (e, empty) ↦ empty
      | inr (m, q', e, h) ↦ absurd (cc (simp (free, e) at w))
    ]

    pub parser_queue_empty :
        Waits s parse → s.parser_sends ≡ [] → QueueApi.items (queues ℕ) s.parser_queue ≡ []
    unfolding act
    parser_queue_empty w free = elim (receive_cases (queues ℕ) s.parser_queue) [
      | inl (e, empty) ↦ empty
      | inr (b, q', e, h) ↦ absurd (cc (simp (free, e) at w))
    ]

    pub isr_queue_empty :
        Waits s rx_receive
        → s.rx_held ≡ none
        → (q : ByteQueue queues gpio) → s.uart.rx_queue ≡ some q
        → QueueApi.items (queues ℕ) q ≡ []
    unfolding act
    isr_queue_empty w free q attached = elim (receive_cases (queues ℕ) q) [
      | inl (e, empty) ↦ empty
      | inr (b, q', e, h) ↦ absurd (cc (simp (free, attached, e) at w))
    ]

    -- A message that waits for the queue of the application finds it full.
    pub app_queue_full :
        (m : Message) (ms : List Message)
        → Waits s parser_send
        → s.parser_sends ≡ m ∷ ms
        → QueueApi.room (queues Message) s.app_queue
          ≤ length (QueueApi.items (queues Message) s.app_queue)
    unfolding act
    app_queue_full m ms w e = elim (send_cases (queues Message) s.app_queue m) [
      | inl (full, over) ↦ over
      | inr (q', goes, h) ↦ absurd (cc (simp (e, goes) at w))
    ]

    module _ (n : Lengths) (roomy : Roomy n) (k : Sized queues gpio env n s) where
      app_sends_none_of :
          (xs : List Send)
          → s.app_sends ≡ xs
          → Waits s app_send
          → QueueApi.items (queues Message) s.tx_queue ≡ []
          → QueueApi.items (queues ActuatorCommand) s.actuator_queue ≡ []
          → xs ≡ []
      unfolding act
      app_sends_none_of [] e w tx actuator = refl
      app_sends_none_of (send_message h m ∷ rest) e w tx actuator =
          let (q', goes) = must_send n.tx_queue s.tx_queue m roomy.tx k.tx tx in
          elim (Bool-cases (h == g_uart_tx_queue)) [
            | inl here ↦ absurd (cc (simp (e, here, goes) at w))
            | inr other ↦ absurd (cc (simp (e, other) at w))
          ]
      app_sends_none_of (send_command h c ∷ rest) e w tx actuator =
          let (q', goes) =
            must_send n.actuator_queue s.actuator_queue c roomy.actuator k.actuator actuator in
          elim (Bool-cases (h == g_actuator_queue)) [
            | inl here ↦ absurd (cc (simp (e, here, goes) at w))
            | inr other ↦ absurd (cc (simp (e, other) at w))
          ]

      pub app_sends_none :
          Waits s app_send
          → QueueApi.items (queues Message) s.tx_queue ≡ []
          → QueueApi.items (queues ActuatorCommand) s.actuator_queue ≡ []
          → s.app_sends ≡ []
      app_sends_none = app_sends_none_of s.app_sends refl

      parser_sends_none_of :
          (ms : List Message)
          → s.parser_sends ≡ ms
          → Waits s parser_send
          → QueueApi.items (queues Message) s.app_queue ≡ []
          → ms ≡ []
      unfolding act
      parser_sends_none_of [] e w empty = refl
      parser_sends_none_of (m ∷ ms) e w empty =
          let (q', goes) = must_send n.app_queue s.app_queue m roomy.app k.app empty in
          absurd (cc (simp (e, goes) at w))

      pub parser_sends_none :
          Waits s parser_send
          → QueueApi.items (queues Message) s.app_queue ≡ []
          → s.parser_sends ≡ []
      parser_sends_none = parser_sends_none_of s.parser_sends refl

      rx_held_none_of :
          (h : Option ℕ)
          → s.rx_held ≡ h
          → Waits s rx_send
          → QueueApi.items (queues ℕ) s.parser_queue ≡ []
          → h ≡ none
      unfolding act
      rx_held_none_of none e w empty = refl
      rx_held_none_of (some b) e w empty =
          let (q', goes) = must_send n.parser_queue s.parser_queue b roomy.parser k.parser empty in
          absurd (cc (simp (e, goes) at w))

      pub rx_held_none :
          Waits s rx_send → QueueApi.items (queues ℕ) s.parser_queue ≡ [] → s.rx_held ≡ none
      rx_held_none = rx_held_none_of s.rx_held refl
