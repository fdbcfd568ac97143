-- ===== src/Tasks/Session/History.antt =====
-- firmware/app/tasks.c: the loops of the tasks on one item more.
use tp5_borda_rojas.Handles.{g_uart_tx_queue, g_actuator_queue}
use tp5_borda_rojas.Base.{
  ℕ, ◌+◌, suc, some, List, [], ◌∷◌, ◌++◌, append_assoc, append-nil, ◌≡◌, refl, ap, arith, Bytes,
  length, ◌==◌, if◌then◌else◌, Bool-cases, inl, inr,
}
use tp5_borda_rojas.Config.{max_frame_size}
use tp5_borda_rojas.Protocol.Message.{Message}
use tp5_borda_rojas.Protocol.Encode.{encode_frame}
use tp5_borda_rojas.Actuators.{ActuatorCommand, Gpio, apply_command}
use tp5_borda_rojas.App.{AppState, Send, send_message, send_command, handle_message}
use tp5_borda_rojas.App.Replies.{messages_of, commands_of}
use tp5_borda_rojas.App.Led.{run_commands}
use tp5_borda_rojas.Tasks.UartTx.{tx_round}
use tp5_borda_rojas.Tasks.Session.{AppEnv, app_rounds, tx_rounds, kept, replies}

pub app_rounds-snoc :
    (env : AppEnv) (i : ℕ) (s : AppState) (ms : List Message) (m : Message) (j : ℕ)
    → j ≡ i + length ms
    → let h =
        handle_message
          (app_rounds env i s ms).0
          (env.counters j)
          env.garbage
          (some m)
          g_uart_tx_queue
          g_actuator_queue in
      app_rounds env i s (ms ++ (m ∷ [])) ≡ (h.state, (app_rounds env i s ms).1 ++ h.sends)
unfolding app_rounds
app_rounds-snoc env i s [] m j e = let same : j ≡ i = omega (arith, e) in rw (same, append-nil) refl
app_rounds-snoc env i s (x ∷ ms) m j e =
    rw
      (
        app_rounds-snoc env (suc i)
            (handle_message s (env.counters i) env.garbage (some x) g_uart_tx_queue
              g_actuator_queue).state
            ms m j (omega (arith, e)),
        append_assoc,
      )
      refl

-- The buffer and the length of `task_uart_tx` after some rounds.
unfoldable pub tx_buffers : List Message → Bytes → ℕ → Bytes × ℕ
tx_buffers [] old n = (old, n)
tx_buffers (m ∷ ms) old n =
    let e = encode_frame (some m) (some old) max_frame_size (some n) in
    tx_buffers ms (kept old e.frame) (kept n e.frame_length)

pub tx_rounds-snoc :
    (ms : List Message) (m : Message) (old : Bytes) (n : ℕ)
    → tx_rounds (ms ++ (m ∷ [])) old n
      ≡ tx_rounds ms old n ++ tx_round m (tx_buffers ms old n).0 (tx_buffers ms old n).1
unfolding tx_rounds tx_buffers
tx_rounds-snoc [] m old n = rw append-nil refl
tx_rounds-snoc (x ∷ ms) m old n = rw (tx_rounds-snoc ms m, append_assoc) refl

pub tx_buffers-snoc :
    (ms : List Message) (m : Message) (old : Bytes) (n : ℕ)
    → let b = tx_buffers ms old n in
      let e = encode_frame (some m) (some b.0) max_frame_size (some b.1) in
      tx_buffers (ms ++ (m ∷ [])) old n ≡ (kept b.0 e.frame, kept b.1 e.frame_length)
unfolding tx_buffers
tx_buffers-snoc [] m old n = refl
tx_buffers-snoc (x ∷ ms) m old n = tx_buffers-snoc ms m _ _

-- The commands that `task_actuators` receives: those that were sent to its queue.
abbrev pub orders : List (ℕ × ActuatorCommand) → List ActuatorCommand
orders [] = []
orders ((q, c) ∷ cs) = let rest = orders cs in if q == g_actuator_queue then c ∷ rest else rest

-- What `task_app` sends, by what comes out of each queue.
abbrev pub replies_in : List Send → List Message
replies_in xs = replies (messages_of xs)

abbrev pub orders_in : List Send → List ActuatorCommand
orders_in xs = orders (commands_of xs)

pub replies_in-append : (xs ys : List Send) → replies_in (xs ++ ys) ≡ replies_in xs ++ replies_in ys
replies_in-append [] ys = refl
replies_in-append (send_message q m ∷ xs) ys = elim (Bool-cases (q == g_uart_tx_queue)) [
  | inl here ↦ rw here (ap (λ l. m ∷ l) (replies_in-append xs ys))
  | inr other ↦ rw other (replies_in-append xs ys)
]
replies_in-append (send_command q c ∷ xs) ys = replies_in-append xs ys

pub orders_in-append : (xs ys : List Send) → orders_in (xs ++ ys) ≡ orders_in xs ++ orders_in ys
orders_in-append [] ys = refl
orders_in-append (send_message q m ∷ xs) ys = orders_in-append xs ys
orders_in-append (send_command q c ∷ xs) ys = elim (Bool-cases (q == g_actuator_queue)) [
  | inl here ↦ rw here (ap (λ l. c ∷ l) (orders_in-append xs ys))
  | inr other ↦ rw other (orders_in-append xs ys)
]

module _ (gpio : Gpio) where
  open gpio use {Pin}

  abbrev pub apply_all : List ActuatorCommand → Pin → Pin
  apply_all [] pin = pin
  apply_all (c ∷ cs) pin = apply_all cs (apply_command gpio (some c) pin)

  pub apply_all-snoc :
      (cs : List ActuatorCommand) (c : ActuatorCommand) (pin : Pin)
      → apply_all (cs ++ (c ∷ [])) pin ≡ apply_command gpio (some c) (apply_all cs pin)
  apply_all-snoc [] c pin = refl
  apply_all-snoc (x ∷ cs) c pin = apply_all-snoc cs c _

  pub apply_all-orders :
      (cs : List (ℕ × ActuatorCommand)) (pin : Pin)
      → apply_all (orders cs) pin ≡ run_commands gpio g_actuator_queue cs pin
  apply_all-orders [] pin = refl
  apply_all-orders ((q, c) ∷ cs) pin = elim (Bool-cases (q == g_actuator_queue)) [
    | inl here ↦ rw here (apply_all-orders cs _)
    | inr other ↦ rw other (apply_all-orders cs pin)
  ]
