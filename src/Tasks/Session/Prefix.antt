-- ===== src/Tasks/Session/Prefix.antt =====
-- firmware/app/tasks.c: what the first of many bytes, or of many messages, lead to.
use tp5_borda_rojas.Base.{
  ℕ, ◌+◌, suc, List, [], ◌∷◌, ◌++◌, append_assoc, ◌≡◌, refl, ap, arith, Bytes, length,
}
use tp5_borda_rojas.Protocol.Message.{Message}
use tp5_borda_rojas.App.{AppState}
use tp5_borda_rojas.App.Answers.{counted, reply_of}
use tp5_borda_rojas.Tasks.ParserTask.{ParserTask, parser_round, parser_rounds}
use tp5_borda_rojas.Tasks.Session.{AppEnv}
use tp5_borda_rojas.Tasks.Session.Laws.{answers, counted_all}

pub parser_rounds-append :
    (t : ParserTask) (xs ys : Bytes)
    → (parser_rounds t (xs ++ ys)).1
      ≡ (parser_rounds t xs).1 ++ (parser_rounds (parser_rounds t xs).0 ys).1
unfolding parser_rounds
parser_rounds-append t [] ys = refl
parser_rounds-append t (b ∷ xs) ys =
    rw (parser_rounds-append (parser_round t b).0 xs ys, append_assoc) refl

pub answers-append :
    (env : AppEnv) (i : ℕ) (s : AppState) (ms ns : List Message)
    → answers env i s (ms ++ ns)
      ≡ answers env i s ms ++ answers env (i + length ms) (counted_all s ms) ns
answers-append env i s [] ns = let same : i + 0 ≡ i = omega arith in rw same refl
answers-append env i s (m ∷ ms) ns =
    let same : i + suc (length ms) ≡ suc i + length ms = omega arith in
    rw same
      (ap (λ l. reply_of s (env.counters i) m ∷ l) (answers-append env (suc i) (counted s m) ms ns))
