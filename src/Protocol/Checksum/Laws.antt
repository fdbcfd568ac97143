-- ===== src/Protocol/Checksum/Laws.antt =====
-- firmware/protocol/protocol.c: `protocol_compute_checksum` as a fold.
use tp5_borda_rojas.Base.{
  ℕ, ◌<◌, some, [], ◌∷◌, ◌++◌, ◌≡◌, ◌≢◌, refl, sym, ◌∙◌, arith, Bytes, IsBytes, length, bit_xor,
  bit_xor-lt_byte, bit_xor_cancel, bit_xor_cancel_right,
}
use tp5_borda_rojas.Protocol.Checksum.{checksum_loop, compute_checksum}

-- The XOR of `acc` and all the bytes.
abbrev pub xor_all : ℕ → Bytes → ℕ
xor_all acc [] = acc
xor_all acc (c ∷ cs) = xor_all (bit_xor acc c) cs

checksum_loop-xor_all :
    (xs ys : Bytes) (acc : ℕ) → checksum_loop acc (xs ++ ys) (length xs) ≡ xor_all acc xs
unfolding checksum_loop
checksum_loop-xor_all [] ys acc = refl
checksum_loop-xor_all (x ∷ xs) ys acc = checksum_loop-xor_all xs ys (bit_xor acc x)

-- The loop reads exactly the first `length` bytes.
pub compute_checksum-xor_all :
    (xs ys : Bytes) → compute_checksum (some (xs ++ ys)) (length xs) ≡ xor_all 0 xs
unfolding compute_checksum
compute_checksum-xor_all xs ys = checksum_loop-xor_all xs ys 0

pub xor_all-lt : (xs : Bytes) (acc : ℕ) → acc < 256 → IsBytes xs → xor_all acc xs < 256
xor_all-lt [] acc h b = h
xor_all-lt (x ∷ xs) acc h b = xor_all-lt xs (bit_xor acc x) (bit_xor-lt_byte acc x h b.0) b.1

xor_all-injective : (xs : Bytes) (a b : ℕ) → xor_all a xs ≡ xor_all b xs → a ≡ b
xor_all-injective [] a b e = e
xor_all-injective (x ∷ xs) a b e =
    bit_xor_cancel_right x a b (xor_all-injective xs (bit_xor a x) (bit_xor b x) e)

pub xor_all_one_byte :
    (xs ys : Bytes) (x y acc : ℕ)
    → xor_all acc (xs ++ (x ∷ ys)) ≡ xor_all acc (xs ++ (y ∷ ys))
    → x ≡ y
xor_all_one_byte [] ys x y acc e =
    bit_xor_cancel acc x y (xor_all-injective ys (bit_xor acc x) (bit_xor acc y) e)
xor_all_one_byte (w ∷ xs) ys x y acc e = xor_all_one_byte xs ys x y (bit_xor acc w) e

pub compute_checksum_all : (xs : Bytes) → compute_checksum (some xs) (length xs) ≡ xor_all 0 xs
unfolding compute_checksum checksum_loop
compute_checksum_all xs = go xs 0
  where
    go : (zs : Bytes) (acc : ℕ) → checksum_loop acc zs (length zs) ≡ xor_all acc zs
    go [] acc = refl
    go (z ∷ zs) acc = go zs (bit_xor acc z)

-- Two buffers that differ in exactly one byte have different checksums, at any place and for any
-- values.
pub compute_checksum_one_byte :
    (xs ys : Bytes) (x y : ℕ)
    → x ≢ y
    → compute_checksum (some (xs ++ (x ∷ ys))) (length (xs ++ (x ∷ ys)))
      ≢ compute_checksum (some (xs ++ (y ∷ ys))) (length (xs ++ (y ∷ ys)))
compute_checksum_one_byte xs ys x y ne e = ne (
    xor_all_one_byte xs ys x y 0
      (sym (compute_checksum_all (xs ++ (x ∷ ys))) ∙ e ∙ compute_checksum_all (xs ++ (y ∷ ys))))

-- The checksum of bytes is a byte: the cast of the loop to `uint8_t` cuts nothing off.
pub compute_checksum-lt : (xs : Bytes) → IsBytes xs → compute_checksum (some xs) (length xs) < 256
compute_checksum-lt xs h = rw (compute_checksum_all xs) (xor_all-lt xs 0 (omega arith) h)
