-- ===== src/Sensors/Laws.antt =====
-- firmware/app/sensors.c: the telemetry text and its length.
use tp5_borda_rojas.Base.{
  ℕ, ◌+◌, ◌%◌, ◌^◌, ◌≤◌, ◌<◌, ◌++◌, ◌≡◌, true, some, arith, Bytes, codes, decimal, length,
  length-append, length-decimal, decimal-IsText, IsText, IsText-append, take-eq_of_le,
}
use tp5_borda_rojas.Sensors.{telemetry_text, build_telemetry_payload}

pub telemetry_text-IsText : (sequence : ℕ) → IsText (telemetry_text sequence)
unfolding telemetry_text
telemetry_text-IsText sequence = IsText-append (codes "temp=") _ (omega arith) (
    IsText-append (decimal _) _ (decimal-IsText _)
      (IsText-append (codes ",seq=") _ (omega arith) (decimal-IsText sequence)))

pub length-telemetry_text :
    (sequence : ℕ) → sequence < 2 ^ 32 → length (telemetry_text sequence) ≤ 30
unfolding telemetry_text
length-telemetry_text sequence h =
    let value = (20 + sequence % 10) % 2 ^ 32 in
    omega (
      arith,
      length-append (decimal value) (codes ",seq=" ++ decimal sequence),
      length-decimal value (omega arith),
      length-decimal sequence h,
    )

-- In a payload's buffer of 49 bytes the text is printed whole, for every sequence number of 32 bits.
pub build_telemetry_payload_whole :
    (old : Bytes) (sequence : ℕ)
    → sequence < 2 ^ 32
    → build_telemetry_payload (some old) 49 sequence ≡ (true, some (telemetry_text sequence))
unfolding build_telemetry_payload
build_telemetry_payload_whole old sequence h =
    let bound = length-telemetry_text sequence h in
    let some' : 0 < length (telemetry_text sequence) = unfold telemetry_text in omega arith in
    rw (take-eq_of_le 48 (telemetry_text sequence) (omega arith)) (ground arith)
