-- ===== src/Tasks/Telemetry/Laws.antt =====
-- firmware/app/tasks.c: the messages and the counter of `task_telemetry`.
use tp5_borda_rojas.Base.{
  ℕ, ◌+◌, ◌%◌, ◌^◌, ◌<◌, List, [], ◌∷◌, ◌==◌, ◌≡◌, inl, inr, refl, if◌then◌else◌, Bytes, Bool-cases,
}
use tp5_borda_rojas.Protocol.Message.{Message, dat, sts}
use tp5_borda_rojas.Sensors.{telemetry_text}
use tp5_borda_rojas.App.{AppState, Counters}
use tp5_borda_rojas.App.Laws.{
  text_message, status_payload, build_status_message_lem, build_telemetry_message_lem,
}
use tp5_borda_rojas.Tasks.Telemetry.{telemetry_round}

-- The two messages, by the number of the round.
abbrev pub telemetry_of : ℕ → Message
telemetry_of n = text_message dat (telemetry_text n)

abbrev pub status_of : AppState → Counters → Message
status_of s c = text_message sts (status_payload s c)

-- The messages of a round.
abbrev pub due : AppState → Counters → ℕ → List Message
due s c n = telemetry_of n ∷ (if n % 5 == 0 then status_of s c ∷ [] else [])

-- A round with a 32-bit number sends the telemetry of that number, and after it the status in every fifth round; the counter
-- goes on by one and wraps round at 2^32.
pub telemetry_round-due :
    (s : AppState) (c : Counters) (garbage : Bytes) (old : Message) (n : ℕ)
    → n < 2 ^ 32
    → ((telemetry_round s c garbage old n).sends ≡ due s c n)
      × ((telemetry_round s c garbage old n).counter ≡ (n + 1) % 2 ^ 32)
unfolding telemetry_round
telemetry_round-due s c garbage old n h =
    let built = (build_telemetry_message_lem garbage old n h).0 in
    let status = (build_status_message_lem s c (telemetry_of n)).0 in
    elim (Bool-cases (n % 5 == 0)) [
      | inl e ↦ (rw (built, e, status) refl, rw (built, e) refl)
      | inr e ↦ (rw (built, e) refl, rw (built, e) refl)
    ]
