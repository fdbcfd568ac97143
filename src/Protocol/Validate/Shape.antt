-- ===== src/Protocol/Validate/Shape.antt =====
-- firmware/protocol/protocol.c: the checks of `protocol_validate_frame`, cell by cell.
use tp5_borda_rojas.Base.{
  ℕ, suc, ◌+◌, ◌-◌, ◌≤◌, false, some, [], ◌∷◌, ◌++◌, ◌≡◌, refl, sym, ◌∙◌, arith, Bytes, NoNul,
  length, take, drop, cell, length-append, length-drop, length-take, take-append-drop, take-append,
  get_or-append, strlen, strlen-NoNul, is_negative,
}
use tp5_borda_rojas.Config.{start_char, separator_char, end_char, max_body_size}
use tp5_borda_rojas.Protocol.Hex.{hex_char_to_nibble, join_nibbles}
use tp5_borda_rojas.Protocol.Hex.Laws.{HexPair, HexPair-join, join-HexPair}
use tp5_borda_rojas.Protocol.Checksum.{compute_checksum}
use tp5_borda_rojas.Protocol.Checksum.Laws.{xor_all, compute_checksum-xor_all}
use tp5_borda_rojas.Protocol.Validate.{checked_body_length}

-- The checks, as the code states them.
pub record Passed (f : Bytes) (n : ℕ) : Type 0 where
  pub size : strlen f ≡ n + 8
  pub at_least : 4 ≤ n
  pub at_most : n ≤ max_body_size
  pub start : cell f 0 ≡ start_char
  pub first : cell f 3 ≡ separator_char
  pub last : cell f (strlen f - 1) ≡ end_char
  pub hi : is_negative (hex_char_to_nibble (cell f 1)) ≡ false
  pub lo : is_negative (hex_char_to_nibble (cell f 2)) ≡ false
  pub expected : join_nibbles (hex_char_to_nibble (cell f 1)) (hex_char_to_nibble (cell f 2)) ≡ n
  pub second : cell f (4 + n) ≡ separator_char
  pub check_hi : is_negative (hex_char_to_nibble (cell f (4 + n + 1))) ≡ false
  pub check_lo : is_negative (hex_char_to_nibble (cell f (4 + n + 2))) ≡ false
  pub check :
      compute_checksum (some (drop 1 f)) (3 + n)
      ≡ join_nibbles
          (hex_char_to_nibble (cell f (4 + n + 1)))
          (hex_char_to_nibble (cell f (4 + n + 2)))

pub checked_body_length-Passed : (f : Bytes) (n : ℕ) → checked_body_length f ≡ some n → Passed f n
unfolding checked_body_length
checked_body_length-Passed f n h = ground arith

pub Passed-checked_body_length : (f : Bytes) (n : ℕ) → Passed f n → checked_body_length f ≡ some n
unfolding checked_body_length
Passed-checked_body_length f n p = ground arith

-- Eight cells round a body, with any bytes in them.
abbrev pub around : ℕ → ℕ → ℕ → ℕ → Bytes → ℕ → ℕ → ℕ → ℕ → Bytes
around a b c d body w x y z = a ∷ b ∷ c ∷ d ∷ (body ++ (w ∷ x ∷ y ∷ z ∷ []))

pub record Around (f : Bytes) (n : ℕ) : Type 0 where
  pub a : ℕ
  pub b : ℕ
  pub c : ℕ
  pub d : ℕ
  pub body : Bytes
  pub w : ℕ
  pub x : ℕ
  pub y : ℕ
  pub z : ℕ
  pub text : f ≡ around a b c d body w x y z
  pub size : length body ≡ n

four_cells : (l : Bytes) → length l ≡ 4 → (w x y z : ℕ) × (l ≡ w ∷ x ∷ y ∷ z ∷ [])
four_cells (w ∷ x ∷ y ∷ z ∷ []) h = (w, x, y, z, refl)
four_cells (w ∷ x ∷ y ∷ z ∷ v ∷ l) h = absurd (omega arith)
four_cells _ h = absurd (omega arith)

-- Every string that is long enough has that shape.
pub Around-of_length : (f : Bytes) (n : ℕ) → length f ≡ n + 8 → Around f n
Around-of_length (a ∷ b ∷ c ∷ d ∷ rest) n h =
    let (w, x, y, z, e) = four_cells (drop n rest) (omega (arith, length-drop n rest)) in
    record {
      a = a;
      b = b;
      c = c;
      d = d;
      body = take n rest;
      w = w;
      x = x;
      y = y;
      z = z;
      text = rw (← e, take-append-drop n rest);
      size = omega (arith, length-take n rest);
    }
Around-of_length _ n h = absurd (omega arith)

module _ (a b c d : ℕ) (body : Bytes) (w x y z : ℕ) where
  cell-around :
      (i : ℕ)
      → cell (around a b c d body w x y z) (4 + length body + i) ≡ cell (w ∷ x ∷ y ∷ z ∷ []) i
  cell-around i =
      let e : 4 + length body + i ≡ suc (suc (suc (suc (length body + i)))) = omega arith in
      rw e (get_or-append body (w ∷ x ∷ y ∷ z ∷ []) i 0)

  pub length-around : length (around a b c d body w x y z) ≡ length body + 8
  length-around = omega (arith, length-append body (w ∷ x ∷ y ∷ z ∷ []))

  checksum-around :
      compute_checksum (some (drop 1 (around a b c d body w x y z))) (3 + length body)
      ≡ xor_all 0 (b ∷ c ∷ d ∷ body)
  checksum-around =
      let e : 3 + length body ≡ length (b ∷ c ∷ d ∷ body) = omega arith in
      rw e (compute_checksum-xor_all (b ∷ c ∷ d ∷ body) (w ∷ x ∷ y ∷ z ∷ []))

  cells_around :
      (cell (around a b c d body w x y z) (4 + length body) ≡ w)
      × (cell (around a b c d body w x y z) (4 + length body + 1) ≡ x)
      × (cell (around a b c d body w x y z) (4 + length body + 2) ≡ y)
      × (cell (around a b c d body w x y z) (length body + 8 - 1) ≡ z)
  cells_around =
      let e : 4 + length body ≡ 4 + length body + 0 = omega arith in
      let k : length body + 8 - 1 ≡ 4 + length body + 3 = omega arith in
      (rw e (cell-around 0), cell-around 1, cell-around 2, rw k (cell-around 3))

  -- On such a string the checks say that it is a frame, but for its body.
  pub record Framed : Type 0 where
    pub at_least : 4 ≤ length body
    pub at_most : length body ≤ max_body_size
    pub start : a ≡ start_char
    pub first : d ≡ separator_char
    pub second : w ≡ separator_char
    pub last : z ≡ end_char
    pub len : HexPair b c (length body)
    pub check : HexPair x y (xor_all 0 (b ∷ c ∷ d ∷ body))

  module _ (whole : NoNul (around a b c d body w x y z)) where
    strlen-around : strlen (around a b c d body w x y z) ≡ length body + 8
    strlen-around = strlen-NoNul (around a b c d body w x y z) whole ∙ length-around

    pub Passed-Framed : Passed (around a b c d body w x y z) (length body) → Framed
    Passed-Framed p =
        let (cw, cx, cy, cz) = cells_around in
        record {
          at_least = p.at_least;
          at_most = p.at_most;
          start = p.start;
          first = p.first;
          second = sym cw ∙ p.second;
          last = sym cz ∙ (rw strlen-around at p.last);
          len = rw p.expected at (HexPair-join b c p.hi p.lo);
          check =
              rw (sym (rw (cx, cy) at p.check) ∙ checksum-around) at
                (HexPair-join x y (rw cx at p.check_hi) (rw cy at p.check_lo));
        }

    pub Framed-Passed : Framed → Passed (around a b c d body w x y z) (length body)
    Framed-Passed q =
        let (cw, cx, cy, cz) = cells_around in
        let (hi, lo, n) = join-HexPair b c (length body) q.len in
        let (check_hi', check_lo', sum) = join-HexPair x y _ q.check in
        record {
          size = strlen-around;
          at_least = q.at_least;
          at_most = q.at_most;
          start = q.start;
          first = q.first;
          last = rw strlen-around (cz ∙ q.last);
          hi = hi;
          lo = lo;
          expected = n;
          second = cw ∙ q.second;
          check_hi = rw cx check_hi';
          check_lo = rw cy check_lo';
          check = rw (cx, cy) (checksum-around ∙ sym sum);
        }

-- The body that `protocol_decode_body` is then given.
pub take-drop-around :
    (a b c d : ℕ) (body : Bytes) (w x y z : ℕ)
    → take (length body) (drop 4 (around a b c d body w x y z)) ≡ body
take-drop-around a b c d body w x y z = take-append body (w ∷ x ∷ y ∷ z ∷ [])
