-- ===== src/Bits/Digits.antt =====
-- The native bit operations, digit by digit, and as arithmetic where one operand is a mask.
use Prim.Native.Nat.{min, max, digits, bitwise, differ}
use Prim.Native.Nat.{bit_and-bitwise, bit_or-bitwise, bit_xor-bitwise}
use native.Mathlib.Nat.{pow-suc, one-le-pow, mod-eq_of_lt, mod-lt, div-add-mod'}
use native.Mathlib.Nat.{mul-add-mod_self_right}
use merkle_tree_certs.Prelude.{ℕ, zero, suc, ◌+◌, ◌-◌, ◌*◌, ◌/◌, ◌%◌, ◌^◌, ◌≤◌, ◌<◌}
use merkle_tree_certs.Prelude.{bit_and, bit_or, bit_xor, ◌≡◌, refl, ap, ◌∙◌, arith}

module _ (z : ℕ → ℕ) (f : ℕ → ℕ → ℕ) where
  -- Any count of digits that covers the first operand gives one result.
  digits_count : (n m a b : ℕ) → a ≤ n → a ≤ m → digits z f n a b ≡ digits z f m a b
  digits_count zero zero a b p q = refl
  digits_count zero (suc m) zero b p q = refl
  digits_count zero (suc m) (suc a) b p q = absurd (omega arith)
  digits_count (suc n) zero zero b p q = refl
  digits_count (suc n) zero (suc a) b p q = absurd (omega arith)
  digits_count (suc n) (suc m) zero b p q = refl
  digits_count (suc n) (suc m) (suc a) b p q =
      ap (λ t. t * 2 + f (suc a % 2) (b % 2))
        (digits_count n m (suc a / 2) (b / 2) (omega arith) (omega arith))

  bitwise_step :
      (x y : ℕ)
      → bitwise z f (suc x) y ≡ bitwise z f (suc x / 2) (y / 2) * 2 + f (suc x % 2) (y % 2)
  bitwise_step x y =
      ap (λ t. t * 2 + f (suc x % 2) (y % 2))
        (digits_count x (suc x / 2) (suc x / 2) (y / 2) (omega arith) (omega arith))

pub bit_and_step : (x y : ℕ) → bit_and x y ≡ bit_and (x / 2) (y / 2) * 2 + min (x % 2) (y % 2)
bit_and_step zero y = simp bit_and-bitwise (omega arith)
bit_and_step (suc x) y = simp bit_and-bitwise (bitwise_step (λ u. 0) min x y)

pub bit_or_step : (x y : ℕ) → bit_or x y ≡ bit_or (x / 2) (y / 2) * 2 + max (x % 2) (y % 2)
bit_or_step zero y = simp bit_or-bitwise (omega arith)
bit_or_step (suc x) y = simp bit_or-bitwise (bitwise_step (λ u. u) max x y)

pub bit_xor_step : (x y : ℕ) → bit_xor x y ≡ bit_xor (x / 2) (y / 2) * 2 + differ (x % 2) (y % 2)
bit_xor_step zero y = simp bit_xor-bitwise (ground arith)
bit_xor_step (suc x) y = simp bit_xor-bitwise (bitwise_step (λ u. u) differ x y)

bit_and-zero_below : (n a : ℕ) → a < n → bit_and a 0 ≡ 0
bit_and-zero_below zero a h = absurd (omega arith)
bit_and-zero_below (suc n) zero h = refl
bit_and-zero_below (suc n) (suc a) h =
    omega (arith, bit_and_step (suc a) 0, bit_and-zero_below n (suc a / 2) (omega arith))

pub bit_and-zero : (a : ℕ) → bit_and a 0 ≡ 0
bit_and-zero a = bit_and-zero_below (suc a) a (omega arith)

pub differ-zero : (x : ℕ) → differ x 0 ≡ x
differ-zero zero = refl
differ-zero (suc x) = refl

pub differ-one : (x : ℕ) → x < 2 → differ x 1 ≡ 1 - x
differ-one zero h = refl
differ-one (suc x) h = let e : x ≡ 0 = omega arith in rw e refl

bit_xor-zero_below : (n a : ℕ) → a < n → bit_xor a 0 ≡ a
bit_xor-zero_below zero a h = absurd (omega arith)
bit_xor-zero_below (suc n) zero h = refl
bit_xor-zero_below (suc n) (suc a) h = omega (
  arith,
  bit_xor_step (suc a) 0,
  differ-zero (suc a % 2),
  bit_xor-zero_below n (suc a / 2) (omega arith),
)

pub bit_xor-zero : (a : ℕ) → bit_xor a 0 ≡ a
bit_xor-zero a = bit_xor-zero_below (suc a) a (omega arith)

-- A remainder by an even number, from the remainder of the half.
pub mod-double : (m b : ℕ) → 0 < m → b % (m * 2) ≡ b / 2 % m * 2 + b % 2
mod-double m b h = parts ∙ mod-eq_of_lt small
  where
    small : b / 2 % m * 2 + b % 2 < m * 2
    small = omega (arith, mod-lt (b / 2) h)

    regroup : b ≡ b / 2 / m * (m * 2) + (b / 2 % m * 2 + b % 2)
    regroup = omega (arith, div-add-mod' (b / 2) m)

    parts : b % (m * 2) ≡ (b / 2 % m * 2 + b % 2) % (m * 2)
    parts =
        ap (λ t. t % (m * 2)) regroup
        ∙ mul-add-mod_self_right (b / 2 / m) (m * 2) (b / 2 % m * 2 + b % 2)

-- A mask of the `k` lowest digits is the remainder by `2 ^ k`.
pub bit_and_mask : (k a : ℕ) → bit_and a (2 ^ k - 1) ≡ a % 2 ^ k
bit_and_mask zero a = omega (arith, bit_and-zero a)
bit_and_mask (suc k) a = rw pow-suc (
    rw (mod-double (2 ^ k) a (one-le-pow k 2 (omega arith))) (
      omega (
        arith,
        bit_and_step a (2 ^ k * 2 - 1),
        halves,
        bit_and_mask k (a / 2),
        one-le-pow k 2 (omega arith),
      )))
  where
    halves : bit_and (a / 2) ((2 ^ k * 2 - 1) / 2) ≡ bit_and (a / 2) (2 ^ k - 1)
    halves = ap (bit_and (a / 2)) (omega (arith, one-le-pow k 2 (omega arith)))

-- Exclusive or with one turns the lowest digit over.
pub bit_xor-one : (a : ℕ) → bit_xor a 1 ≡ a / 2 * 2 + (1 - a % 2)
bit_xor-one a =
    omega (arith, bit_xor_step a 1, bit_xor-zero (a / 2), differ-one (a % 2) (omega arith))
