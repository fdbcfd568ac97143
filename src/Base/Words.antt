-- ===== src/Base/Words.antt =====
-- Machine words: wrap-around of `uint8_t` and `uint32_t`, and the small signed results of C.
use Prim.Native.Nat.{ℕ, ◌-◌, ◌%◌, ◌^◌}
use mathlib.Core.Bool.{Bool, true, false}

abbrev pub u8 : ℕ → ℕ
u8 n = n % 2 ^ 8

abbrev pub u32 : ℕ → ℕ
u32 n = n % 2 ^ 32

-- `negsuc n` is -(n + 1).
pub data ℤ : Type 0 where
  pos : ℕ → ℤ
  negsuc : ℕ → ℤ

abbrev pub is_negative : ℤ → Bool
is_negative (pos n) = false
is_negative (negsuc n) = true

-- The cast `(uint8_t) z`.
abbrev pub to_u8 : ℤ → ℕ
to_u8 (pos n) = u8 n
to_u8 (negsuc n) = 255 - u8 n
