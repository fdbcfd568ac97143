-- ===== src/Base/CStrings.antt =====
-- Strings of C as the bytes that stand before a terminator: the list `s` is the buffer
-- `s[0] … s[n-1] '\0'`. A `0` inside the list ends the string for the functions of <string.h>.
use Prim.Native.Nat.{ℕ, zero, suc, ◌+◌, ◌-◌, ◌*◌, ◌/◌, ◌%◌, ◌^◌, ◌<◌, ◌≤◌}
use native.Mathlib.Nat.{pow-suc}
use Prim.Native.Char.{code}
use Prim.Native.String.{String}
use mathlib.Core.Path.{◌≡◌, refl, ap}
use mathlib.Core.Logic.{◌↔◌, ◌≢◌, inl, inr}
use mathlib.Core.Bool.{Bool, true, false, ◌&&◌}
use mathlib.Core.List.{List, [], ◌∷◌, ◌++◌}
use native.Mathlib.Omega.{arith}
use tp5_borda_rojas.Base.Tests.{◌==◌, ltb, if◌then◌else◌, Bool-cases}
use tp5_borda_rojas.Base.Lists.{
  length, take, drop, replicate, get_or, All, All-append, length-append,
}

abbrev pub Bytes : Type 0
Bytes = List ℕ

-- The bytes of an ASCII literal.
abbrev pub codes : String → Bytes
codes String.[] = []
codes (String.◌∷◌ c s) = code c ∷ codes s

-- What the functions of <string.h> see of a buffer.
unfoldable pub c_str : Bytes → Bytes
c_str [] = []
c_str (c ∷ cs) = if c == 0 then [] else c ∷ c_str cs

unfoldable pub strlen : Bytes → ℕ
unfolding c_str
strlen s = length (c_str s)

-- A read of one cell; the cell behind the list is the terminator.
abbrev pub cell : Bytes → ℕ → ℕ
cell s i = get_or s i 0

unfoldable pub bytes_eq : Bytes → Bytes → Bool
bytes_eq [] [] = true
bytes_eq (x ∷ xs) (y ∷ ys) = x == y && bytes_eq xs ys
bytes_eq _ _ = false

-- `strcmp(a, b) == 0`
unfoldable pub strcmp_zero : Bytes → Bytes → Bool
unfolding bytes_eq c_str
strcmp_zero a b = bytes_eq (c_str a) (c_str b)

-- `strncmp(a, b, n) == 0`
unfoldable pub strncmp_zero : Bytes → Bytes → ℕ → Bool
unfolding bytes_eq c_str
strncmp_zero a b n = bytes_eq (take n (c_str a)) (take n (c_str b))

-- `snprintf(buf, size, …)` whose whole output is `text`: the buffer afterwards, for `0 < size`, and
-- the number returned.
abbrev pub snprintf : ℕ → Bytes → Bytes × ℕ
snprintf size text = (take (size - 1) text, length text)

abbrev pub NoNul : Bytes → Type 0
NoNul = All (λ c. c ≢ 0)

abbrev pub IsBytes : Bytes → Type 0
IsBytes = All (λ c. c < 256)

pub bytes_eq_iff : (a b : Bytes) → (bytes_eq a b ≡ true) ↔ (a ≡ b)
unfolding bytes_eq
bytes_eq_iff (x ∷ a) (y ∷ b) = ground (arith, bytes_eq_iff a b)
bytes_eq_iff _ _ = ground arith

pub c_str-NoNul : (s : Bytes) → NoNul s → c_str s ≡ s
unfolding c_str
c_str-NoNul [] h = refl
c_str-NoNul (c ∷ cs) h = ground (arith, c_str-NoNul cs h.1)

pub strlen-le : (s : Bytes) → strlen s ≤ length s
unfolding strlen c_str
strlen-le [] = omega arith
strlen-le (c ∷ cs) = ground (arith, strlen-le cs)

-- A string whose length is that of its buffer has no `0` before the terminator.
pub NoNul-of_strlen : (s : Bytes) → strlen s ≡ length s → NoNul s
unfolding strlen c_str
NoNul-of_strlen [] h = tt
NoNul-of_strlen (c ∷ cs) h = ground (arith, NoNul-of_strlen cs)

pub strlen-NoNul : (s : Bytes) → NoNul s → strlen s ≡ length s
unfolding strlen
strlen-NoNul s h = ap length (c_str-NoNul s h)

-- The bytes in front of the first `0` are a string of their own.
pub take-strlen : (s : Bytes) → take (strlen s) s ≡ c_str s
unfolding strlen c_str
take-strlen [] = refl
take-strlen (c ∷ cs) = ground (arith, take-strlen cs)

pub c_str-NoNul' : (s : Bytes) → NoNul (c_str s)
unfolding c_str
c_str-NoNul' [] = tt
c_str-NoNul' (c ∷ cs) = ground (arith, c_str-NoNul' cs)

pub c_str-append : (s t : Bytes) → NoNul s → c_str (s ++ t) ≡ s ++ c_str t
unfolding c_str
c_str-append [] t h = refl
c_str-append (c ∷ cs) t h = ground (arith, c_str-append cs t h.1)

pub NoNul-append : (s t : Bytes) → NoNul s → NoNul t → NoNul (s ++ t)
NoNul-append [] t h k = k
NoNul-append (c ∷ cs) t h k = (h.0, NoNul-append cs t h.1 k)

-- `strncpy(dst, src, n)`: at most `n` bytes of `src`, filled up with `0`; the cells behind stay.
abbrev pub strncpy : Bytes → Bytes → ℕ → Bytes
strncpy dst src n = take n (c_str src ++ replicate n 0) ++ drop n dst

-- What `%u` and `%lu` print. The fuel is never used up: it falls slower than the number.
unfoldable pub decimal_fuel : ℕ → ℕ → Bytes
decimal_fuel zero n = []
decimal_fuel (suc f) n =
    let rest = decimal_fuel f (n / 10) in
    if ltb n 10 then (n + b'0') ∷ [] else rest ++ ((n % 10 + b'0') ∷ [])

unfoldable pub decimal : ℕ → Bytes
unfolding decimal_fuel
decimal n = decimal_fuel (suc n) n

-- The number that decimal digits stand for.
abbrev pub digits_value : ℕ → Bytes → ℕ
digits_value acc [] = acc
digits_value acc (c ∷ cs) = digits_value (acc * 10 + (c - b'0')) cs

abbrev pub IsDigits : Bytes → Type 0
IsDigits = All (λ c. (b'0' ≤ c) × (c ≤ b'9'))

digits_value-append :
    (xs : Bytes) (c acc : ℕ)
    → digits_value acc (xs ++ c ∷ []) ≡ digits_value acc xs * 10 + (c - b'0')
digits_value-append [] c acc = refl
digits_value-append (x ∷ xs) c acc = digits_value-append xs c (acc * 10 + (x - b'0'))

decimal_fuel_value : (f n : ℕ) → n < f → digits_value 0 (decimal_fuel f n) ≡ n
unfolding decimal_fuel
decimal_fuel_value zero n h = absurd (omega arith)
decimal_fuel_value (suc f) n h = ground (
  arith,
  decimal_fuel_value f (n / 10),
  digits_value-append (decimal_fuel f (n / 10)) (n % 10 + b'0') 0,
)

-- The digits printed stand for the number.
pub digits_value-decimal : (n : ℕ) → digits_value 0 (decimal n) ≡ n
unfolding decimal
digits_value-decimal n = decimal_fuel_value (suc n) n (omega arith)

decimal_fuel-IsDigits : (f n : ℕ) → IsDigits (decimal_fuel f n)
unfolding decimal_fuel
decimal_fuel-IsDigits zero n = tt
decimal_fuel-IsDigits (suc f) n =
    let tail' =
      All-append (λ c. (b'0' ≤ c) × (c ≤ b'9')) (decimal_fuel f (n / 10)) ((n % 10 + b'0') ∷ [])
        (decimal_fuel-IsDigits f (n / 10)) ((omega arith, omega arith), tt) in
    elim (Bool-cases (ltb n 10)) [
      | inl small ↦ rw small ((omega arith, ground arith), tt)
      | inr large ↦ rw large tail'
    ]

pub decimal-IsDigits : (n : ℕ) → IsDigits (decimal n)
unfolding decimal
decimal-IsDigits n = decimal_fuel-IsDigits (suc n) n

length-decimal_fuel : (k f n : ℕ) → n < 10 ^ suc k → length (decimal_fuel f n) ≤ suc k
unfolding decimal_fuel
length-decimal_fuel k zero n h = omega arith
length-decimal_fuel zero (suc f) n h = ground arith
length-decimal_fuel (suc k) (suc f) n h = ground (
  arith,
  length-append (decimal_fuel f (n / 10)) ((n % 10 + b'0') ∷ []),
  length-decimal_fuel k f (n / 10) (omega (arith, pow-suc 10 (suc k))),
)

-- A number of 32 bits takes at most ten digits.
pub length-decimal : (n : ℕ) → n < 2 ^ 32 → length (decimal n) ≤ 10
unfolding decimal
length-decimal n h = length-decimal_fuel 9 (suc n) n (omega arith)

-- Text that may stand in a payload on the wire: no terminator and no carriage return.
abbrev pub IsTextByte : ℕ → Type 0
IsTextByte c = (c ≢ 0) × (c ≢ b'\r') × (c < 128)

abbrev pub IsText : Bytes → Type 0
IsText = All IsTextByte

pub IsText-of_IsDigits : (s : Bytes) → IsDigits s → IsText s
IsText-of_IsDigits [] h = tt
IsText-of_IsDigits (c ∷ cs) (h, hs) =
    ((omega arith, omega arith, omega arith), IsText-of_IsDigits cs hs)

pub decimal-IsText : (n : ℕ) → IsText (decimal n)
decimal-IsText n = IsText-of_IsDigits (decimal n) (decimal-IsDigits n)

pub NoNul-of_IsText : (s : Bytes) → IsText s → NoNul s
NoNul-of_IsText [] h = tt
NoNul-of_IsText (c ∷ cs) (h, hs) = (h.0, NoNul-of_IsText cs hs)

pub IsBytes-of_IsText : (s : Bytes) → IsText s → IsBytes s
IsBytes-of_IsText [] h = tt
IsBytes-of_IsText (c ∷ cs) (h, hs) = (omega (arith, h.2), IsBytes-of_IsText cs hs)

pub IsText-append : (s t : Bytes) → IsText s → IsText t → IsText (s ++ t)
IsText-append s t h k = All-append IsTextByte s t h k

pub IsText-take : (n : ℕ) (s : Bytes) → IsText s → IsText (take n s)
IsText-take zero s h = tt
IsText-take (suc n) [] h = tt
IsText-take (suc n) (c ∷ cs) (h, hs) = (h, IsText-take n cs hs)

-- The comparison with a text that holds no `0`.
pub strcmp_zero_text : (a b : Bytes) → NoNul b → strcmp_zero a b ≡ bytes_eq (c_str a) b
unfolding strcmp_zero
strcmp_zero_text a b h = ap (bytes_eq (c_str a)) (c_str-NoNul b h)
