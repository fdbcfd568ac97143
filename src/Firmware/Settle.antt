-- ===== src/Firmware/Settle.antt =====
-- firmware/app/tasks.c: the tasks run on until all of them wait.
use tp5_borda_rojas.Base.{
  ℕ, zero, suc, ◌≤◌, none, some, List, [], ◌∷◌, append-nil, ◌≡◌, ◌⊎◌, inl, inr, refl, arith, All,
  Option-cases, Bytes,
}
use tp5_borda_rojas.Queue.{QueueApi}
use tp5_borda_rojas.Actuators.{Gpio}
use tp5_borda_rojas.Tasks.Session.{AppEnv}
use tp5_borda_rojas.Firmware.{
  Action, IsTask, interrupt, rx_receive, rx_send, parse, parser_send, handle, app_send, transmit,
  actuate, System, act, accepted, Reach, later,
}
use tp5_borda_rojas.Firmware.Measure.{work, act-work, act_all}
use tp5_borda_rojas.Firmware.Stuck.{IsStuck}

module _ (queues : (A : Type 0) → QueueApi A) (gpio : Gpio) (env : AppEnv) where
  abbrev State : Type 0
  State = System queues gpio

  -- Only the interrupt lets bytes in.
  pub accepted_task : (s : State) (a : Action) → IsTask a → accepted queues gpio s a ≡ []
  accepted_task s (interrupt w) h = absurd h
  accepted_task s rx_receive h = refl
  accepted_task s rx_send h = refl
  accepted_task s parse h = refl
  accepted_task s parser_send h = refl
  accepted_task s handle h = refl
  accepted_task s app_send h = refl
  accepted_task s transmit h = refl
  accepted_task s actuate h = refl

  -- A task that can go on.
  pub record Goes (s : State) : Type 0 where
    pub action : Action
    pub is_task : IsTask action
    pub next : State
    pub step : act queues gpio env s action ≡ some next

  either :
      (s : State) (a : Action) (P : Type 0)
      → IsTask a
      → (act queues gpio env s a ≡ none → Goes s ⊎ P)
      → Goes s ⊎ P
  either s a P h rest = elim (Option-cases (act queues gpio env s a)) [
    | inl waits ↦ rest waits
    | inr (t, e) ↦ inl (record { action = a; is_task = h; next = t; step = e })
  ]

  pub Goes-cases : (s : State) → Goes s ⊎ IsStuck queues gpio env s
  Goes-cases s = either s rx_receive _ tt λ a. either s rx_send _ tt λ b. either s parse _ tt λ c.
      either s parser_send _ tt λ d. either s handle _ tt λ e.
        either s app_send _ tt
          λ f. either s transmit _ tt λ g. either s actuate _ tt λ h. inr (stuck a b c d e f g h)
    where
      stuck :
          act queues gpio env s rx_receive ≡ none
          → act queues gpio env s rx_send ≡ none
          → act queues gpio env s parse ≡ none
          → act queues gpio env s parser_send ≡ none
          → act queues gpio env s handle ≡ none
          → act queues gpio env s app_send ≡ none
          → act queues gpio env s transmit ≡ none
          → act queues gpio env s actuate ≡ none
          → IsStuck queues gpio env s
      stuck a b c d e f g h (interrupt w) k = absurd k
      stuck a b c d e f g h rx_receive k = a
      stuck a b c d e f g h rx_send k = b
      stuck a b c d e f g h parse k = c
      stuck a b c d e f g h parser_send k = d
      stuck a b c d e f g h handle k = e
      stuck a b c d e f g h app_send k = f
      stuck a b c d e f g h transmit k = g
      stuck a b c d e f g h actuate k = h

  -- A run of tasks to where all of them wait.
  pub record Run (s : State) : Type 0 where
    pub actions : List Action
    pub are_tasks : All IsTask actions
    pub last : State
    pub makes : act_all queues gpio env s actions ≡ some last
    pub stuck : IsStuck queues gpio env last

  -- One step more at the beginning of a run.
  longer : (s : State) (g : Goes s) → Run g.next → Run s
  unfolding act_all
  longer s g r = record {
    actions = g.action ∷ r.actions;
    are_tasks = (g.is_task, r.are_tasks);
    last = r.last;
    makes = rw (g.step, act_all) r.makes;
    stuck = r.stuck;
  }

  run_of_work : (n : ℕ) (s : State) → work queues gpio s ≤ n → Run s
  unfolding act_all
  run_of_work zero s h = elim (Goes-cases s) [
    | inr stuck ↦ record { actions = []; are_tasks = tt; last = s; makes = refl; stuck = stuck }
    | inl g ↦ absurd (omega (arith, act-work queues gpio env s g.next g.action g.is_task g.step))
  ]
  run_of_work (suc n) s h = elim (Goes-cases s) [
    | inr stuck ↦ record { actions = []; are_tasks = tt; last = s; makes = refl; stuck = stuck }
    | inl g ↦ longer s g (
        run_of_work n g.next
          (omega (arith, act-work queues gpio env s g.next g.action g.is_task g.step)))
  ]

  -- From every state the tasks can run on until all of them wait.
  pub run_of : (s : State) → Run s
  run_of s = run_of_work (work queues gpio s) s (omega arith)

  -- What the tasks make of a reachable state is reachable; no byte comes in.
  pub Reach-act_all :
      (start : State) (actions : List Action) (s t : State) (bytes : Bytes)
      → Reach queues gpio env start s bytes
      → All IsTask actions
      → act_all queues gpio env s actions ≡ some t
      → Reach queues gpio env start t bytes
  unfolding act_all
  Reach-act_all start [] s t bytes r h e = let same : s ≡ t = cc in rw (← same) r
  Reach-act_all start (a ∷ rest) s t bytes r (h, hs) e =
      elim (Option-cases (act queues gpio env s a)) [
        | inl waits ↦ absurd (cc (rw (waits, act_all) at e))
        | inr (u, made) ↦
            Reach-act_all start rest u t bytes
              (rw (accepted_task s a h, append-nil) at (later s u bytes a r made)) hs
              (rw (made, act_all) at e)
      ]
