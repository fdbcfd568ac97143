-- ===== src/Protocol/Hex/Laws.antt =====
-- firmware/protocol/protocol.c: `hex_char_to_nibble` and `nibble_to_hex` against hexadecimal digits.
use tp5_borda_rojas.Base.{
  ℕ, ◌+◌, ◌*◌, ◌/◌, ◌%◌, ◌^◌, ◌≤◌, ◌<◌, Bool, true, false, ◌⊎◌, ◌≡◌, refl, sym, ◌∙◌, ◌↔◌, ◌≢◌,
  arith, ◌==◌, ==_iff, ℤ, pos, negsuc, is_negative, u8, bit_or, holds_to, holds_to_lem,
}
use tp5_borda_rojas.Protocol.Hex.{hex_char_to_nibble, nibble_to_hex, join_nibbles}

-- `c` is a digit of value `v`, in either case.
abbrev pub HexDigit : ℕ → ℕ → Type 0
HexDigit c v =
    ((v < 10) × (c ≡ v + b'0'))
    ⊎ ((10 ≤ v) × (v < 16) × ((c + 10 ≡ v + b'A') ⊎ (c + 10 ≡ v + b'a')))

-- Two digits that stand for `n`.
pub record HexPair (c d n : ℕ) : Type 0 where
  pub hi : ℕ
  pub lo : ℕ
  pub hi_digit : HexDigit c hi
  pub lo_digit : HexDigit d lo
  pub value : n ≡ hi * 16 + lo

-- The code reads a digit exactly where there is one, with its value.
pub hex_char_to_nibble_iff : (c v : ℕ) → (hex_char_to_nibble c ≡ pos v) ↔ HexDigit c v
unfolding hex_char_to_nibble
hex_char_to_nibble_iff c v = (λ h. ground arith, λ h. ground arith)

pub HexDigit-lt : (c v : ℕ) → HexDigit c v → (v < 16) × (c ≢ 0) × (c < 128)
HexDigit-lt c v h = ground arith

pub nibble_of_nonneg :
    (c : ℕ) → is_negative (hex_char_to_nibble c) ≡ false → (v : ℕ) × (hex_char_to_nibble c ≡ pos v)
nibble_of_nonneg c h = go (hex_char_to_nibble c) refl h
  where
    go :
        (z : ℤ)
        → hex_char_to_nibble c ≡ z
        → is_negative z ≡ false
        → (v : ℕ) × (hex_char_to_nibble c ≡ pos v)
    go (pos v) e k = (v, e)
    go (negsuc v) e k = cc

bit_or_table : holds_to (λ x. bit_or (x / 16 * 16) (x % 16) == x) 256 ≡ true
unfolding holds_to
bit_or_table = refl

bit_or_nibbles : (h l : ℕ) → h < 16 → l < 16 → bit_or (h * 16) l ≡ h * 16 + l
bit_or_nibbles h l p q =
    let checked = (==_iff _ (h * 16 + l)).0 (
      holds_to_lem (λ x. bit_or (x / 16 * 16) (x % 16) == x) 256 bit_or_table (h * 16 + l)
        (omega arith)) in
    let high : (h * 16 + l) / 16 ≡ h = omega arith in
    let low : (h * 16 + l) % 16 ≡ l = omega arith in rw (high, low) at checked

pub join_nibbles_pos : (h l : ℕ) → h < 16 → l < 16 → join_nibbles (pos h) (pos l) ≡ h * 16 + l
unfolding join_nibbles
join_nibbles_pos h l p q =
    let hi : h % 256 ≡ h = omega arith in
    let lo : l % 256 ≡ l = omega arith in rw (hi, lo) (rw (bit_or_nibbles h l p q) (omega arith))

HexPair_of_values :
    (c d hi lo : ℕ)
    → hex_char_to_nibble c ≡ pos hi
    → hex_char_to_nibble d ≡ pos lo
    → HexPair c d (join_nibbles (hex_char_to_nibble c) (hex_char_to_nibble d))
HexPair_of_values c d hi lo p q =
    let dh = (hex_char_to_nibble_iff c hi).0 p in
    let dl = (hex_char_to_nibble_iff d lo).0 q in
    record {
      hi = hi;
      lo = lo;
      hi_digit = dh;
      lo_digit = dl;
      value = rw (p, q) (join_nibbles_pos hi lo (HexDigit-lt c hi dh).0 (HexDigit-lt d lo dl).0);
    }

-- What the callers compute from two digits that they accept.
pub HexPair-join :
    (c d : ℕ)
    → is_negative (hex_char_to_nibble c) ≡ false
    → is_negative (hex_char_to_nibble d) ≡ false
    → HexPair c d (join_nibbles (hex_char_to_nibble c) (hex_char_to_nibble d))
HexPair-join c d h k =
    let (hi, p) = nibble_of_nonneg c h in
    let (lo, q) = nibble_of_nonneg d k in HexPair_of_values c d hi lo p q

-- And the other way round: such digits are accepted with their value.
pub join-HexPair :
    (c d n : ℕ)
    → HexPair c d n
    → (is_negative (hex_char_to_nibble c) ≡ false)
      × (is_negative (hex_char_to_nibble d) ≡ false)
      × (join_nibbles (hex_char_to_nibble c) (hex_char_to_nibble d) ≡ n)
join-HexPair c d n h =
    let p = (hex_char_to_nibble_iff c h.hi).1 h.hi_digit in
    let q = (hex_char_to_nibble_iff d h.lo).1 h.lo_digit in
    (
      rw p,
      rw q,
      rw (p, q)
          (join_nibbles_pos h.hi h.lo (HexDigit-lt c h.hi h.hi_digit).0
              (HexDigit-lt d h.lo h.lo_digit).0
            ∙ sym h.value),
    )

pub HexPair-lt : (c d n : ℕ) → HexPair c d n → n < 256
HexPair-lt c d n h =
    omega (arith, h.value, HexDigit-lt c h.hi h.hi_digit, HexDigit-lt d h.lo h.lo_digit)

pub HexPair-unique : (c d n m : ℕ) → HexPair c d n → HexPair c d m → n ≡ m
HexPair-unique c d n m h k = sym (join-HexPair c d n h).2 ∙ (join-HexPair c d m k).2

reads_as : ℕ → ℕ → Bool
reads_as c v = elim (hex_char_to_nibble c) [ pos w ↦ w == v | negsuc w ↦ false ]

reads_as_sound : (c v : ℕ) → reads_as c v ≡ true → HexDigit c v
unfolding reads_as
reads_as_sound c v h = (hex_char_to_nibble_iff c v).0 (ground arith)

nibble_table : holds_to (λ x. reads_as (nibble_to_hex x) (x % 16)) 256 ≡ true
unfolding holds_to nibble_to_hex reads_as hex_char_to_nibble
nibble_table = refl

-- `nibble_to_hex` writes the low four bits of a byte as a digit.
pub nibble_to_hex-HexDigit : (x : ℕ) → x < 256 → HexDigit (nibble_to_hex x) (x % 16)
nibble_to_hex-HexDigit x h =
    reads_as_sound (nibble_to_hex x) (x % 16)
      (holds_to_lem (λ y. reads_as (nibble_to_hex y) (y % 16)) 256 nibble_table x h)

-- A byte that is written as its two digits is read back as itself.
pub join-nibble_to_hex :
    (n : ℕ)
    → n < 256
    → HexPair (nibble_to_hex (u8 (n / 2 ^ 4))) (nibble_to_hex (u8 n)) n
      × (join_nibbles
            (hex_char_to_nibble (nibble_to_hex (u8 (n / 2 ^ 4))))
            (hex_char_to_nibble (nibble_to_hex (u8 n)))
          ≡ n)
join-nibble_to_hex n h =
    let pair : HexPair (nibble_to_hex (u8 (n / 2 ^ 4))) (nibble_to_hex (u8 n)) n = record {
      hi = u8 (n / 2 ^ 4) % 16;
      lo = u8 n % 16;
      hi_digit = nibble_to_hex-HexDigit (u8 (n / 2 ^ 4)) (omega arith);
      lo_digit = nibble_to_hex-HexDigit (u8 n) (omega arith);
      value = omega arith;
    } in
    (pair, (join-HexPair _ _ n pair).2)
