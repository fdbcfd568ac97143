-- ===== src/Queue.antt =====
-- The queues of FreeRTOS as the tasks use them. The kernel is another project: a queue is an argument of
-- what uses it, with the behaviour that the kernel's documentation promises.
pub mod Laws
use tp5_borda_rojas.Base.{ℕ, ◌<◌, ◌≤◌, Option, none, some, List, [], ◌∷◌, ◌++◌, ◌≡◌, length}

-- A queue of `A` by what it holds, oldest first. `create h n` is the answer to the call of `xQueueCreate` whose
-- handle is `h`, for `n` items: `none` where the heap has no room left.
-- `send` gives `none` where the queue is full: the call fails from an interrupt, and waits from a task with
-- `portMAX_DELAY`. `receive` gives `none` where it is empty and the task waits.
pub record QueueApi (A : Type 0) : Type 1 where
  pub Queue : Type 0
  pub items : Queue → List A
  pub room : Queue → ℕ
  pub create : ℕ → ℕ → Option Queue
  pub send : Queue → A → Option Queue
  pub receive : Queue → Option (A × Queue)
  pub create_empty : (h n : ℕ) {q : Queue} → create h n ≡ some q → (items q ≡ []) × (room q ≡ n)
  pub send_full : (q : Queue) (a : A) → room q ≤ length (items q) → send q a ≡ none
  pub send_room :
      (q : Queue) (a : A)
      → length (items q) < room q
      → (q' : Queue) × (send q a ≡ some q') × (items q' ≡ items q ++ (a ∷ [])) × (room q' ≡ room q)
  pub receive_empty : (q : Queue) → items q ≡ [] → receive q ≡ none
  pub receive_first :
      (q : Queue) (a : A) (rest : List A)
      → items q ≡ a ∷ rest
      → (q' : Queue) × (receive q ≡ some (a, q')) × (items q' ≡ rest) × (room q' ≡ room q)
