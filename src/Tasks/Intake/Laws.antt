-- ===== src/Tasks/Intake/Laws.antt =====
-- firmware/app/tasks.c: what becomes of the bytes that the interrupt accepted.
use tp5_borda_rojas.Base.{
  ℕ, Option, none, some, List, [], ◌∷◌, ◌++◌, ◌≡◌, append_assoc, append-nil, inl, inr, refl, ◌∙◌,
  Bytes, Option-cases, u8,
}
use tp5_borda_rojas.Queue.{QueueApi}
use tp5_borda_rojas.Queue.Laws.{receive_cases, send_cases}
use tp5_borda_rojas.Uart.{usart1_isr}
use tp5_borda_rojas.Tasks.ParserTask.{ParserTask, parser_round, parser_rounds}
use tp5_borda_rojas.Tasks.Intake.{
  Action, interrupt, rx_receive, rx_send, parse, Intake, step, run, accepted_now, accepted,
}

pub parser_rounds-snoc :
    (t : ParserTask) (bs : Bytes) (b : ℕ)
    → parser_rounds t (bs ++ (b ∷ [])) ≡ (
      (parser_round (parser_rounds t bs).0 b).0,
      (parser_rounds t bs).1 ++ (parser_round (parser_rounds t bs).0 b).1,
    )
unfolding parser_rounds
parser_rounds-snoc t [] b = rw append-nil refl
parser_rounds-snoc t (c ∷ bs) b =
    rw (parser_rounds-snoc (parser_round t c).0 bs b, append_assoc) refl

abbrev pub held_bytes : Option ℕ → Bytes
held_bytes none = []
held_bytes (some b) = b ∷ []

module _ (api : QueueApi ℕ) where
  open api use {Queue, items}

  -- Where the bytes are that were accepted: parsed, in the queue of the parser, in the hand of
  -- `task_uart_rx`, or in the queue of the interrupt, from the oldest to the newest.
  pub record Kept (start : ParserTask) (bytes : Bytes) (x : Intake api) : Type 0 where
    pub consumed : Bytes
    pub queue : Queue
    pub attached : x.uart.rx_queue ≡ some queue
    pub whole : consumed ++ (items x.parser_queue ++ (held_bytes x.held ++ items queue)) ≡ bytes
    pub parsed : parser_rounds start consumed ≡ (x.task, x.sent)

  module _ (start : ParserTask) (bytes : Bytes) (x : Intake api) (k : Kept start bytes x) where
    interrupt-Kept :
        (w : ℕ) → Kept start (bytes ++ accepted_now api x (interrupt w)) (step api x (interrupt w))
    unfolding step usart1_isr
    interrupt-Kept w = elim (send_cases api k.queue (u8 w)) [
      | inl (full, h) ↦
          rw (k.attached, full, append-nil)
            (record {
              consumed = k.consumed;
              queue = k.queue;
              attached = refl;
              whole = k.whole;
              parsed = k.parsed;
            })
      | inr (q', s, h) ↦
          rw (k.attached, s)
            (record {
              consumed = k.consumed;
              queue = q';
              attached = refl;
              whole = rw (h.back, ← k.whole) (simp append_assoc refl);
              parsed = k.parsed;
            })
    ]

    rx_receive-Kept : Kept start (bytes ++ []) (step api x rx_receive)
    unfolding step
    rx_receive-Kept = elim (Option-cases x.held) [
      | inr (b, e) ↦ simp (e, append-nil) k
      | inl e ↦ elim (receive_cases api k.queue) [
        | inl (empty, h) ↦ simp (e, k.attached, empty, append-nil) k
        | inr (b, q', r, h) ↦
            rw (e, k.attached, r, append-nil)
              (record {
                consumed = k.consumed;
                queue = q';
                attached = refl;
                whole = rw (e, h.out) at k.whole;
                parsed = k.parsed;
              })
      ]
    ]

    rx_send-Kept : Kept start (bytes ++ []) (step api x rx_send)
    unfolding step
    rx_send-Kept = elim (Option-cases x.held) [
      | inl e ↦ simp (e, append-nil) k
      | inr (b, e) ↦ elim (send_cases api x.parser_queue b) [
        | inl (full, h) ↦ simp (e, full, append-nil) k
        | inr (q', s, h) ↦
            rw (e, s, append-nil)
              (record {
                consumed = k.consumed;
                queue = k.queue;
                attached = k.attached;
                whole = rw (h.back, append_assoc) (rw e at k.whole);
                parsed = k.parsed;
              })
      ]
    ]

    parse-Kept : Kept start (bytes ++ []) (step api x parse)
    unfolding step
    parse-Kept = elim (receive_cases api x.parser_queue) [
      | inl (empty, h) ↦ rw (empty, append-nil) k
      | inr (b, q', r, h) ↦
          rw (r, append-nil)
            (record {
              consumed = k.consumed ++ (b ∷ []);
              queue = k.queue;
              attached = k.attached;
              whole = rw append_assoc (rw h.out at k.whole);
              parsed = parser_rounds-snoc start k.consumed b ∙ rw k.parsed refl;
            })
    ]

    step-Kept : (a : Action) → Kept start (bytes ++ accepted_now api x a) (step api x a)
    step-Kept (interrupt w) = interrupt-Kept w
    step-Kept rx_receive = rx_receive-Kept
    step-Kept rx_send = rx_send-Kept
    step-Kept parse = parse-Kept

  -- From a state that keeps its bytes, and in whatever order interrupts and tasks take turns, no byte that the interrupt accepted is lost, doubled or
  -- overtaken: it has been parsed, or waits in the two queues or in the hand of `task_uart_rx`, in the order
  -- of arrival; and `task_parser` has done and sent exactly what it does on the bytes parsed.
  pub run-Kept :
      (actions : List Action) (start : ParserTask) (bytes : Bytes) (x : Intake api)
      → Kept start bytes x
      → Kept start (bytes ++ accepted api x actions) (run api x actions)
  unfolding run accepted
  run-Kept [] start bytes x k = rw append-nil k
  run-Kept (a ∷ more) start bytes x k = rw (← append_assoc) (
      run-Kept more start (bytes ++ accepted_now api x a) (step api x a)
        (step-Kept start bytes x k a))
