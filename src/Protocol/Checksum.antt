-- ===== src/Protocol/Checksum.antt =====
-- firmware/protocol/protocol.c: `protocol_compute_checksum`.
pub mod Laws
use tp5_borda_rojas.Base.{ℕ, zero, suc, Option, none, some, ◌∷◌, [], Bytes, cell, drop, bit_xor}

-- `acc` is `checksum` at the top of the loop, and the number counts the rounds left. Each round
-- takes the next cell.
unfoldable pub checksum_loop : ℕ → Bytes → ℕ → ℕ
checksum_loop acc data' zero = acc
checksum_loop acc data' (suc left) = checksum_loop (bit_xor acc (cell data' 0)) (drop 1 data') left

unfoldable pub compute_checksum : Option Bytes → ℕ → ℕ
unfolding checksum_loop
compute_checksum none length = 0
compute_checksum (some data') length = checksum_loop 0 data' length
