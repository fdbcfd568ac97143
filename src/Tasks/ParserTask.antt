-- ===== src/Tasks/ParserTask.antt =====
-- firmware/app/tasks.c: `task_parser`, on the bytes that it receives.
pub mod Laws
use tp5_borda_rojas.Base.{ℕ, ◌+◌, Option, none, some, List, [], ◌∷◌, ◌++◌, u32, Bytes}
use tp5_borda_rojas.Protocol.Message.{Message}
use tp5_borda_rojas.Parser.{
  ParserResult, in_progress, message_ready, error, Parser, Consumed, consume,
}
use tp5_borda_rojas.Parser.Stream.{buffer}

-- The task's variables and the counters `g_parser_…_count`.
pub record ParserTask : Type 0 where
  pub parser : Parser
  pub message : Message
  pub byte_count : ℕ
  pub message_count : ℕ
  pub error_count : ℕ

-- The getters of the three counters.
abbrev pub get_byte_count : ParserTask → ℕ
get_byte_count t = t.byte_count

abbrev pub get_message_count : ParserTask → ℕ
get_message_count t = t.message_count

abbrev pub get_error_count : ParserTask → ℕ
get_error_count t = t.error_count

-- What is done with the result of `parser_consume_byte`; the list is what goes to `g_app_queue`.
abbrev on_result : ParserTask → ParserResult → ParserTask × List Message
on_result t in_progress = (t, [])
on_result t message_ready = (record t { message_count = u32 (t.message_count + 1) }, t.message ∷ [])
on_result t error = (record t { error_count = u32 (t.error_count + 1) }, [])

unfoldable pub parser_round : ParserTask → ℕ → ParserTask × List Message
parser_round t byte =
    let c = consume t.parser byte (some t.message) in
    on_result
      (record t {
        parser = c.parser;
        message = buffer t.message c.message;
        byte_count = u32 (t.byte_count + 1);
      })
      c.result

-- The rounds on the bytes received one after another, and all that they sent.
unfoldable pub parser_rounds : ParserTask → Bytes → ParserTask × List Message
parser_rounds t [] = (t, [])
parser_rounds t (b ∷ bs) =
    let first = parser_round t b in
    let later = parser_rounds first.0 bs in (later.0, first.1 ++ later.1)
