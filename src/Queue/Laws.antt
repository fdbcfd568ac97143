-- ===== src/Queue/Laws.antt =====
-- The queues of FreeRTOS: each call on a queue either goes through or has to wait, by what the queue holds.
use tp5_borda_rojas.Base.{
  ℕ, ap, arith, length-append, ◌≤◌, ◌<◌, none, some, List, [], ◌∷◌, ◌++◌, ◌≡◌, ◌⊎◌, inl, inr, refl,
  length, ltb, ltb→lt, not_ltb→le, Bool-cases,
}
use tp5_borda_rojas.Queue.{QueueApi}

module _ {A : Type 0} (api : QueueApi A) where
  open api use {
    Queue, items, room, send, receive, send_full, send_room, receive_empty, receive_first,
  }

  -- What `receive` did: the oldest item went out.
  pub record Received (q : Queue) (a : A) (q' : Queue) : Type 0 where
    pub out : items q ≡ a ∷ items q'
    pub same_room : room q' ≡ room q

  -- What `send` did: there was room, and the item is the newest.
  pub record Sent (q : Queue) (a : A) (q' : Queue) : Type 0 where
    pub had_room : length (items q) < room q
    pub back : items q' ≡ items q ++ (a ∷ [])
    pub same_room : room q' ≡ room q

  pub receive_cases :
      (q : Queue)
      → ((receive q ≡ none) × (items q ≡ []))
        ⊎ ((a : A) × (q' : Queue) × (receive q ≡ some (a, q')) × Received q a q')
  receive_cases q = go (items q) refl
    where
      go :
          (l : List A)
          → items q ≡ l
          → ((receive q ≡ none) × (items q ≡ []))
            ⊎ ((a : A) × (q' : Queue) × (receive q ≡ some (a, q')) × Received q a q')
      go [] e = inl (receive_empty q e, e)
      go (a ∷ l) e =
          let (q', r, i, same) = receive_first q a l e in
          inr (a, q', r, record { out = rw i e; same_room = same })

  pub send_cases :
      (q : Queue) (a : A)
      → ((send q a ≡ none) × (room q ≤ length (items q)))
        ⊎ ((q' : Queue) × (send q a ≡ some q') × Sent q a q')
  send_cases q a = elim (Bool-cases (ltb (length (items q)) (room q))) [
    | inl less ↦
        let had = ltb→lt _ _ less in
        let (q', s, i, same) = send_room q a had in
        inr (q', s, record { had_room = had; back = i; same_room = same })
    | inr full ↦ let over = not_ltb→le _ _ full in inl (send_full q a over, over)
  ]

  -- A queue of room `n` that holds no more than that.
  abbrev pub Fits : ℕ → Queue → Type 0
  Fits n q = (room q ≡ n) × (length (items q) ≤ n)

  pub Received-Fits :
      (n : ℕ) (q : Queue) (a : A) (q' : Queue) → Received q a q' → Fits n q → Fits n q'
  Received-Fits n q a q' r f = omega (arith, r.same_room, ap length r.out, f)

  pub Sent-Fits : (n : ℕ) (q : Queue) (a : A) (q' : Queue) → Sent q a q' → Fits n q → Fits n q'
  Sent-Fits n q a q' r f =
      omega (arith, r.had_room, r.same_room, ap length r.back, length-append (items q) (a ∷ []), f)
