-- ===== src/Base/Bits.antt =====
-- Laws of XOR at every width, from its lowest digit, and a check of every byte by evaluation.
use Prim.Native.Nat.{
  ℕ, zero, suc, ◌+◌, ◌-◌, ◌*◌, ◌/◌, ◌%◌, ◌^◌, ◌≤◌, ◌<◌, bit_xor, digits, differ, bit_xor-bitwise,
}
use mathlib.Core.Path.{◌≡◌, refl, ◌∙◌}
use mathlib.Core.Bool.{Bool, true, ◌&&◌}
use native.Mathlib.Nat.{pow-suc, le_refl}
use native.Mathlib.Omega.{arith}
use native.Mathlib.Decide.{dec_lt}

-- A test of every number in front of `n`.
unfoldable pub holds_to : (ℕ → Bool) → ℕ → Bool
holds_to test zero = true
holds_to test (suc n) = holds_to test n && test n

pub holds_to_lem :
    (test : ℕ → Bool) (n : ℕ) → holds_to test n ≡ true → (i : ℕ) → i < n → test i ≡ true
unfolding holds_to
holds_to_lem test zero all i less = absurd (omega arith)
holds_to_lem test (suc n) all i less = elim (dec_lt i n) [
  | yes before ↦ holds_to_lem test n (ground arith) i before
  | no last ↦ let same : i ≡ n = omega arith in rw same (ground arith)
]

-- A digit more changes nothing once there are enough of them, and so neither do several.
module _ (z : ℕ → ℕ) (f : ℕ → ℕ → ℕ) where
  digits_one_more : (b n a : ℕ) → a ≤ n → digits z f (suc n) a b ≡ digits z f n a b
  digits_one_more b zero zero le = refl
  digits_one_more b zero (suc a) le = absurd (omega arith)
  digits_one_more b (suc n) zero le = refl
  digits_one_more b (suc n) (suc a) le = rw (digits_one_more (b / 2) n (suc a / 2) (omega arith))

  digits_more : (b k n m a : ℕ) → m ≡ n + k → a ≤ n → digits z f m a b ≡ digits z f n a b
  digits_more b zero n m a e le = let same : m ≡ n = omega (arith, e) in rw same
  digits_more b (suc k) n zero a e le = absurd (omega (arith, e))
  digits_more b (suc k) n (suc m) a e le =
      digits_one_more b m a (omega arith) ∙ digits_more b k n m a (omega (arith, e)) le

differ_lem : (x y : ℕ) → differ x y ≡ (x - y) + (y - x)
differ_lem zero y = omega arith
differ_lem (suc x) zero = omega arith
differ_lem (suc x) (suc y) = omega (arith, differ_lem x y)

xor_digit : (a b : ℕ) → bit_xor a b ≡ bit_xor (a / 2) (b / 2) * 2 + differ (a % 2) (b % 2)
xor_digit zero b = simp bit_xor-bitwise (omega arith)
xor_digit (suc a) b =
    let half = suc a / 2 in
    simp bit_xor-bitwise (
      omega (
        arith,
        digits_more (λ y. y) differ (b / 2) (a - half) half a half (omega arith) (le_refl _),
      ))

pub bit_xor_step :
    (a b : ℕ) → bit_xor a b ≡ bit_xor (a / 2) (b / 2) * 2 + ((a % 2 - b % 2) + (b % 2 - a % 2))
bit_xor_step a b = omega (arith, xor_digit a b, differ_lem (a % 2) (b % 2))

bit_xor_comm_below : (n a b : ℕ) → a + b ≤ n → bit_xor a b ≡ bit_xor b a
bit_xor_comm_below zero zero zero h = refl
bit_xor_comm_below zero zero (suc b) h = absurd (omega arith)
bit_xor_comm_below zero (suc a) b h = absurd (omega arith)
bit_xor_comm_below (suc n) a b h =
    omega (
      arith,
      bit_xor_step a b,
      bit_xor_step b a,
      bit_xor_comm_below n (a / 2) (b / 2) (omega arith),
    )

pub bit_xor_comm : (a b : ℕ) → bit_xor a b ≡ bit_xor b a
bit_xor_comm a b = bit_xor_comm_below (a + b) a b (le_refl _)

bit_xor_cancel_below : (n a x y : ℕ) → a + x + y ≤ n → bit_xor a x ≡ bit_xor a y → x ≡ y
bit_xor_cancel_below zero a x y h e = omega arith
bit_xor_cancel_below (suc n) a x y h e =
    let high : bit_xor (a / 2) (x / 2) ≡ bit_xor (a / 2) (y / 2) =
      omega (arith, bit_xor_step a x, bit_xor_step a y) in
    omega (
      arith,
      bit_xor_step a x,
      bit_xor_step a y,
      bit_xor_cancel_below n (a / 2) (x / 2) (y / 2) (omega arith) high,
    )

-- XOR with a fixed number is injective, on either side.
pub bit_xor_cancel : (a x y : ℕ) → bit_xor a x ≡ bit_xor a y → x ≡ y
bit_xor_cancel a x y e = bit_xor_cancel_below (a + x + y) a x y (le_refl _) e

pub bit_xor_cancel_right : (a x y : ℕ) → bit_xor x a ≡ bit_xor y a → x ≡ y
bit_xor_cancel_right a x y e = bit_xor_cancel a x y (bit_xor_comm a x ∙ e ∙ bit_xor_comm y a)

bit_xor-lt_pow : (k a b : ℕ) → a < 2 ^ k → b < 2 ^ k → bit_xor a b < 2 ^ k
bit_xor-lt_pow zero zero zero p q = omega arith
bit_xor-lt_pow zero zero (suc b) p q = absurd (omega arith)
bit_xor-lt_pow zero (suc a) b p q = absurd (omega arith)
bit_xor-lt_pow (suc k) a b p q = omega (
  arith,
  pow-suc 2 k,
  bit_xor_step a b,
  bit_xor-lt_pow k (a / 2) (b / 2) (omega (arith, pow-suc 2 k)) (omega (arith, pow-suc 2 k)),
)

-- The XOR of two bytes is a byte.
pub bit_xor-lt_byte : (a b : ℕ) → a < 256 → b < 256 → bit_xor a b < 256
bit_xor-lt_byte a b p q = bit_xor-lt_pow 8 a b p q
