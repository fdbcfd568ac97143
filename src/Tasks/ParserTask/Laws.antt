-- ===== src/Tasks/ParserTask/Laws.antt =====
-- firmware/app/tasks.c: `task_parser` on many bytes, and its counters.
use tp5_borda_rojas.Base.{
  ℕ, ◌+◌, ◌^◌, ◌<◌, ◌≤◌, some, List, [], ◌∷◌, ◌≡◌, ◌⊎◌, inl, inr, suc, refl, ap, arith, Bytes,
  length, u32,
}
use tp5_borda_rojas.Protocol.Message.{Message}
use tp5_borda_rojas.Parser.{ParserResult, in_progress, message_ready, error, consume}
use tp5_borda_rojas.Parser.Stream.{Event, received, failed, buffer, feed}
use tp5_borda_rojas.Tasks.ParserTask.{ParserTask, on_result, parser_round, parser_rounds}

-- The messages of a stream, and the number of its errors.
abbrev pub messages : List Event → List Message
messages [] = []
messages (received m ∷ es) = m ∷ messages es
messages (failed ∷ es) = messages es

abbrev pub failures : List Event → ℕ
failures [] = 0
failures (received m ∷ es) = failures es
failures (failed ∷ es) = suc (failures es)

-- The task after its rounds, as the stream says.
pub record Follows (t : ParserTask) (bs : Bytes) (r : ParserTask × List Message) : Type 0 where
  pub sent : r.1 ≡ messages (feed t.parser t.message bs).events
  pub parser : r.0.parser ≡ (feed t.parser t.message bs).parser
  pub bytes : r.0.byte_count ≡ u32 (t.byte_count + length bs)
  pub counted :
      r.0.message_count
      ≡ u32 (t.message_count + length (messages (feed t.parser t.message bs).events))
  pub errors : r.0.error_count ≡ u32 (t.error_count + failures (feed t.parser t.message bs).events)

abbrev pub IsWord : ParserTask → Type 0
IsWord t = (t.byte_count < 2 ^ 32) × (t.message_count < 2 ^ 32) × (t.error_count < 2 ^ 32)

result_cases : (r : ParserResult) → ((r ≡ in_progress) ⊎ (r ≡ message_ready)) ⊎ (r ≡ error)
result_cases in_progress = inl (inl refl)
result_cases message_ready = inl (inr refl)
result_cases error = inr refl

-- The task after a round, with the counters that its result leaves.
abbrev advanced : ParserTask → ℕ → ℕ → ℕ → ParserTask
advanced t b more_messages more_errors =
    let c = consume t.parser b (some t.message) in
    record {
      parser = c.parser;
      message = buffer t.message c.message;
      byte_count = u32 (t.byte_count + 1);
      message_count = more_messages;
      error_count = more_errors;
    }

-- With 32-bit counters, the task on any bytes sends exactly the messages that the parser makes of them, in their order, and its
-- counters advance, modulo 2^32, by the bytes, the messages and the errors of that stream.
pub parser_rounds-Follows :
    (bs : Bytes) (t : ParserTask) → IsWord t → Follows t bs (parser_rounds t bs)
unfolding parser_rounds parser_round feed
parser_rounds-Follows [] t w = record {
  sent = refl;
  parser = refl;
  bytes = omega arith;
  counted = omega arith;
  errors = omega arith;
}
parser_rounds-Follows (b ∷ bs) t w =
    elim (result_cases (consume t.parser b (some t.message)).result) [
      | inl (inl e) ↦
          let ih =
            parser_rounds-Follows bs (advanced t b t.message_count t.error_count)
              (omega arith, omega arith, omega arith) in
          rw e (record {
            sent = rw e (ih.sent);
            parser = ih.parser;
            bytes = omega (arith, ih.bytes);
            counted = rw e (omega (arith, ih.counted));
            errors = rw e (omega (arith, ih.errors));
          })
      | inl (inr e) ↦
          let ih =
            parser_rounds-Follows bs (advanced t b (u32 (t.message_count + 1)) t.error_count)
              (omega arith, omega arith, omega arith) in
          rw e (record {
            sent =
                rw e (
                  ap (◌∷◌ (buffer t.message (consume t.parser b (some t.message)).message))
                    ih.sent);
            parser = ih.parser;
            bytes = omega (arith, ih.bytes);
            counted = rw e (omega (arith, ih.counted));
            errors = rw e (omega (arith, ih.errors));
          })
      | inr e ↦
          let ih =
            parser_rounds-Follows bs (advanced t b t.message_count (u32 (t.error_count + 1)))
              (omega arith, omega arith, omega arith) in
          rw e (record {
            sent = rw e (ih.sent);
            parser = ih.parser;
            bytes = omega (arith, ih.bytes);
            counted = rw e (omega (arith, ih.counted));
            errors = rw e (omega (arith, ih.errors));
          })
    ]

length-on_result : (t : ParserTask) (r : ParserResult) → length (on_result t r).1 ≤ 1
length-on_result t in_progress = omega arith
length-on_result t message_ready = omega arith
length-on_result t error = omega arith

-- A byte completes at most one message.
pub length-parser_round : (t : ParserTask) (b : ℕ) → length (parser_round t b).1 ≤ 1
unfolding parser_round
length-parser_round t b = length-on_result _ _
