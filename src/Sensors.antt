-- ===== src/Sensors.antt =====
-- firmware/app/sensors.c: `sensors_build_telemetry_payload`. (`sensors_init` is empty.)
pub mod Laws
use tp5_borda_rojas.Base.{
  ℕ, ◌+◌, ◌%◌, ◌&&◌, ◌++◌, Bool, false, Option, none, some, ◌==◌, ltb, if◌then◌else◌, Bytes, codes,
  decimal, snprintf, u32,
}

-- The text that the call of `snprintf` prints.
unfoldable pub telemetry_text : ℕ → Bytes
telemetry_text sequence =
    let pseudo_value = u32 (20 + sequence % 10) in
    codes "temp=" ++ (decimal pseudo_value ++ (codes ",seq=" ++ decimal sequence))

-- The result, and what `buffer` holds then; `none` is a null pointer.
unfoldable pub build_telemetry_payload : Option Bytes → ℕ → ℕ → Bool × Option Bytes
build_telemetry_payload none size sequence = (false, none)
build_telemetry_payload (some old) size sequence =
    if size == 0
    then (false, some old)
    else let written = snprintf size (telemetry_text sequence) in
      (ltb 0 written.1 && ltb written.1 size, some written.0)
