-- ===== src/Firmware/Led.antt =====
-- firmware/app/tasks.c and firmware/app/actuators.c: the LED while commands are still on their way.
use tp5_borda_rojas.Handles.{g_uart_tx_queue, g_actuator_queue}
use tp5_borda_rojas.Base.{
  length-append, Bool-cases, inl, inr, if◌then◌else◌, ℕ, suc, ◌+◌, ◌≤◌, Bool, some, List, [], ◌∷◌,
  ◌++◌, ◌≡◌, refl, sym, ap, ◌∙◌, arith, length,
}
use tp5_borda_rojas.Protocol.Message.{Message}
use tp5_borda_rojas.Actuators.{ActuatorCommand, Gpio, apply_command}
use tp5_borda_rojas.Actuators.Laws.{lit}
use tp5_borda_rojas.App.{AppState, Handled, handle_message}
use tp5_borda_rojas.App.Replies.{commands_of}
use tp5_borda_rojas.App.Led.{
  led_spec, lit-handle_message, moves, led_count, commands-handle_message,
}
use tp5_borda_rojas.Tasks.Session.{AppEnv, app_rounds}
use tp5_borda_rojas.Tasks.Session.Laws.{led_run}
use tp5_borda_rojas.Tasks.Session.History.{orders_in, orders_in-append, apply_all, apply_all-orders}

module _ (gpio : Gpio) where
  open gpio use {Pin}

  -- The LED after the first of some messages; each of the others that moves it has its command among `waiting`.
  pub record LitAfterSome (ms : List Message) (waiting : List ActuatorCommand) (light : Bool)
      (pin : Pin) : Type 0 where
    pub first : List Message
    pub pending : List Message
    pub parts : first ++ pending ≡ ms
    pub each : led_count pending ≡ length waiting
    pub led : lit gpio pin ≡ led_run first light

  after_one :
      (m : Message) (ms : List Message) (waiting : List ActuatorCommand) (light : Bool) (pin : Pin)
      → LitAfterSome ms waiting (led_spec m light) pin
      → LitAfterSome (m ∷ ms) waiting light pin
  after_one m ms waiting light pin h = record {
    first = m ∷ h.first;
    pending = h.pending;
    parts = ap (λ l. m ∷ l) h.parts;
    each = h.each;
    led = h.led;
  }

  module _ (env : AppEnv) where
    abbrev handled : ℕ → AppState → Message → Handled
    handled i s m =
        handle_message s (env.counters i) env.garbage (some m) g_uart_tx_queue g_actuator_queue

    -- A message leads to one command where it moves the LED.
    length-orders_in :
        (i : ℕ) (s : AppState) (m : Message)
        → length (orders_in (handled i s m).sends) ≡ (if moves m then 1 else 0)
    length-orders_in i s m =
        rw
          (commands-handle_message gpio s (env.counters i) env.garbage m g_uart_tx_queue
            g_actuator_queue (omega arith) (omega arith))
          (elim (Bool-cases (moves m)) [ inl yes' ↦ rw yes' | inr no' ↦ rw no' ])

    led_count-app_rounds :
        (ms : List Message) (i : ℕ) (s : AppState)
        → led_count ms ≡ length (orders_in (app_rounds env i s ms).1)
    unfolding app_rounds
    led_count-app_rounds [] i s = refl
    led_count-app_rounds (m ∷ ms) i s =
        let h = handled i s m in
        let later = led_count-app_rounds ms (suc i) h.state in
        let here = length-orders_in i s m in
        let both : length (orders_in (h.sends ++ (app_rounds env (suc i) h.state ms).1))
            ≡ length (orders_in h.sends)
              + length (orders_in (app_rounds env (suc i) h.state ms).1) =
          ap length (orders_in-append h.sends (app_rounds env (suc i) h.state ms).1)
          ∙ length-append (orders_in h.sends) (orders_in (app_rounds env (suc i) h.state ms).1) in
        elim (Bool-cases (moves m)) [
          | inl yes' ↦ rw yes' (omega (arith, both, later, rw yes' at here))
          | inr no' ↦ rw no' (omega (arith, both, later, rw no' at here))
        ]

    one_order : (i : ℕ) (s : AppState) (m : Message) → length (orders_in (handled i s m).sends) ≤ 1
    one_order i s m =
        let here = length-orders_in i s m in
        elim (Bool-cases (moves m)) [
          | inl yes' ↦ omega (arith, rw yes' at here)
          | inr no' ↦ omega (arith, rw no' at here)
        ]

    led_after_orders :
        (i : ℕ) (s : AppState) (m : Message) (cs : List ActuatorCommand) (pin : Pin)
        → orders_in (handled i s m).sends ≡ cs
        → lit gpio (apply_all gpio cs pin) ≡ led_spec m (lit gpio pin)
    led_after_orders i s m cs pin e =
        rw (← e, apply_all-orders gpio (commands_of (handled i s m).sends) pin)
          (lit-handle_message gpio s (env.counters i) env.garbage m g_uart_tx_queue g_actuator_queue
            pin (omega arith) (omega arith))

    -- The LED after the first commands that the later messages lead to, the others still waiting.
    abbrev Later : List Message → List ActuatorCommand → Type 0
    Later ms orders_left =
        (applied others : List ActuatorCommand) (pin : Pin)
        → orders_left ≡ applied ++ others
        → LitAfterSome ms others (lit gpio pin) (apply_all gpio applied pin)

    applied_first :
        (i : ℕ) (s : AppState) (m : Message) (ms : List Message)
        (orders_left cs : List ActuatorCommand) (c : ActuatorCommand)
        (applied others : List ActuatorCommand) (pin : Pin)
        → orders_in (handled i s m).sends ≡ cs
        → cs ++ orders_left ≡ (c ∷ applied) ++ others
        → Later ms orders_left
        → LitAfterSome (m ∷ ms) others (lit gpio pin) (apply_all gpio (c ∷ applied) pin)
    applied_first i s m ms orders_left [] c applied others pin here rest later =
        after_one m ms others (lit gpio pin) _
          (rw (led_after_orders i s m [] pin here) at (later (c ∷ applied) others pin rest))
    applied_first i s m ms orders_left (d ∷ []) c applied others pin here rest later =
        let same : d ≡ c = cc in
        after_one m ms others (lit gpio pin) _ (
          rw (led_after_orders i s m (c ∷ []) pin (rw same at here)) at
            (later applied others (apply_command gpio (some c) pin) cc))
    applied_first i s m ms orders_left (d ∷ (f ∷ cs)) c applied others pin here rest later =
        absurd (omega (arith, ap length here, one_order i s m))

    -- When the first of the commands that some messages lead to have been applied, the LED is as the first of
    -- these messages say, and the messages behind them have the other commands.
    pub applied-LitAfterSome :
        (ms : List Message) (i : ℕ) (s : AppState) → Later ms (orders_in (app_rounds env i s ms).1)
    unfolding app_rounds
    applied-LitAfterSome ms i s [] others pin e = record {
      first = [];
      pending = ms;
      parts = refl;
      each = led_count-app_rounds ms i s ∙ ap length e;
      led = refl;
    }
    applied-LitAfterSome [] i s (c ∷ applied) others pin e = absurd (cc)
    applied-LitAfterSome (m ∷ ms) i s (c ∷ applied) others pin e =
        let h = handled i s m in
        applied_first i s m ms (orders_in (app_rounds env (suc i) h.state ms).1) (orders_in h.sends)
          c applied others pin refl
          (sym (orders_in-append h.sends (app_rounds env (suc i) h.state ms).1) ∙ e)
          (applied-LitAfterSome ms (suc i) h.state)
