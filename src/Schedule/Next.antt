-- ===== src/Schedule/Next.antt =====
-- firmware/app/tasks.c: a task that the kernel may run next.
use tp5_borda_rojas.Base.{◌<◌, ◌≡◌, some, inl, inr, refl, arith, Option-cases}
use tp5_borda_rojas.Queue.{QueueApi}
use tp5_borda_rojas.Actuators.{Gpio}
use tp5_borda_rojas.Tasks.Session.{AppEnv}
use tp5_borda_rojas.Firmware.{
  Action, IsTask, interrupt, rx_receive, rx_send, parse, parser_send, handle, app_send, transmit,
  actuate, System, act,
}
use tp5_borda_rojas.Firmware.Waits.{Waits}
use tp5_borda_rojas.Firmware.Settle.{Goes}
use tp5_borda_rojas.Schedule.{priority, MayRun}

module _ (queues : (A : Type 0) → QueueApi A) (gpio : Gpio) (env : AppEnv) where
  abbrev State : Type 0
  State = System queues gpio

  -- A task that can go on while each task of a higher priority waits.
  pub record Next (s : State) : Type 0 where
    pub action : Action
    pub is_task : IsTask action
    pub may : MayRun queues gpio env s action
    pub next : State
    pub step : act queues gpio env s action ≡ some next

  -- No task has a priority above 3, and `task_uart_rx` and `task_parser` alone have one above 2.
  at_most_3 : (b : Action) → IsTask b → ¬ (3 < priority b)
  at_most_3 (interrupt w) is h = omega (arith, h)
  at_most_3 rx_receive is h = omega (arith, h)
  at_most_3 rx_send is h = omega (arith, h)
  at_most_3 parse is h = omega (arith, h)
  at_most_3 parser_send is h = omega (arith, h)
  at_most_3 handle is h = omega (arith, h)
  at_most_3 app_send is h = omega (arith, h)
  at_most_3 transmit is h = omega (arith, h)
  at_most_3 actuate is h = omega (arith, h)

  module _ (s : State) where
    high :
        (a : Action) (t : State)
        → priority a ≡ 3
        → IsTask a
        → act queues gpio env s a ≡ some t
        → Next s
    high a t top is e = record {
      action = a;
      is_task = is;
      may = λ b k less. absurd (at_most_3 b k (omega (arith, top, less)));
      next = t;
      step = e;
    }

    above_2 :
        Waits queues gpio env s rx_receive
        → Waits queues gpio env s rx_send
        → Waits queues gpio env s parse
        → Waits queues gpio env s parser_send
        → (b : Action) → IsTask b
        → 2 < priority b
        → Waits queues gpio env s b
    above_2 w x y z (interrupt v) is h = absurd is
    above_2 w x y z rx_receive is h = w
    above_2 w x y z rx_send is h = x
    above_2 w x y z parse is h = y
    above_2 w x y z parser_send is h = z
    above_2 w x y z handle is h = absurd (omega (arith, h))
    above_2 w x y z app_send is h = absurd (omega (arith, h))
    above_2 w x y z transmit is h = absurd (omega (arith, h))
    above_2 w x y z actuate is h = absurd (omega (arith, h))

    low :
        (a : Action) (t : State)
        → priority a ≡ 2
        → IsTask a
        → act queues gpio env s a ≡ some t
        → Next s
    low a t p is e = elim (Option-cases (act queues gpio env s rx_receive)) [
      | inr (u, goes) ↦ high rx_receive u refl tt goes
      | inl w ↦ elim (Option-cases (act queues gpio env s rx_send)) [
        | inr (u, goes) ↦ high rx_send u refl tt goes
        | inl x ↦ elim (Option-cases (act queues gpio env s parse)) [
          | inr (u, goes) ↦ high parse u refl tt goes
          | inl y ↦ elim (Option-cases (act queues gpio env s parser_send)) [
            | inr (u, goes) ↦ high parser_send u refl tt goes
            | inl z ↦ record {
              action = a;
              is_task = is;
              may = λ b k less. above_2 w x y z b k (omega (arith, p, less));
              next = t;
              step = e;
            }
          ]
        ]
      ]
    ]

    from : (a : Action) (t : State) → IsTask a → act queues gpio env s a ≡ some t → Next s
    from (interrupt v) t is e = absurd is
    from rx_receive t is e = high rx_receive t refl is e
    from rx_send t is e = high rx_send t refl is e
    from parse t is e = high parse t refl is e
    from parser_send t is e = high parser_send t refl is e
    from handle t is e = low handle t refl is e
    from app_send t is e = low app_send t refl is e
    from transmit t is e = low transmit t refl is e
    from actuate t is e = low actuate t refl is e

    -- Where a task can go on, the priorities let one of them.
    pub Goes-Next : Goes queues gpio env s → Next s
    Goes-Next g = from g.action g.next g.is_task g.step
