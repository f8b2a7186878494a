-- ===== src/Bits.antt =====
-- The functions of Go's `math/bits` that log.go calls, and the bitwise operators of Go on uint64
-- values, as arithmetic. A uint64 is a number below 2 ^ 64.
pub mod Digits
pub mod Counts
pub mod Powers
pub mod Split
use merkle_tree_certs.Prelude.{List, [], ◌∷◌}
use merkle_tree_certs.Prelude.{ℕ, zero, suc, ◌-◌, ◌/◌, ◌%◌, ◌^◌, ◌==◌, if◌then◌else◌}

-- Go's `^x` on a uint64.
abbrev pub complement64 : ℕ → ℕ
complement64 x = 2 ^ 64 - 1 - x

-- `bits.Len64(x)`, with one round for each binary digit.
bit_length : ℕ → ℕ → ℕ
bit_length zero x = 0
bit_length (suc fuel) zero = 0
bit_length (suc fuel) (suc x) = suc (bit_length fuel (suc x / 2))

unfoldable pub len64 : ℕ → ℕ
unfolding bit_length
len64 x = bit_length 64 x

-- `bits.LeadingZeros64(x)`.
abbrev pub leading_zeros64 : ℕ → ℕ
leading_zeros64 x = 64 - len64 x

-- `bits.TrailingZeros64(x)`, which is 64 at zero.
zeros_below : ℕ → ℕ → ℕ
zeros_below zero x = 0
zeros_below (suc fuel) x = let rest = zeros_below fuel (x / 2) in if x % 2 == 0 then suc rest else 0

unfoldable pub trailing_zeros64 : ℕ → ℕ
unfolding zeros_below
trailing_zeros64 x = zeros_below 64 x

-- The lowest `k` bytes of a number, the highest of them first.
abbrev pub big_endian : ℕ → ℕ → List ℕ
big_endian zero v = []
big_endian (suc k) v = (v / 256 ^ k % 256) ∷ big_endian k v
