-- ===== src/Config/Base128/Masks.antt =====
-- The masks of the base-128 encoding as arithmetic.
use Prim.Native.Nat.{max}
use native.Mathlib.Nat.{pow-suc}
use merkle_tree_certs.Prelude.{ℕ, zero, suc, ◌+◌, ◌-◌, ◌*◌, ◌/◌, ◌%◌, ◌^◌, ◌<◌}
use merkle_tree_certs.Prelude.{bit_and, bit_or, ◌≡◌, refl, ap, ◌∙◌, arith}
use merkle_tree_certs.Bits.Digits.{bit_or_step, bit_and_mask}
use merkle_tree_certs.Bits.Powers.{mul-two-pow-suc}
use merkle_tree_certs.Bits.Split.{bit_and-high}

bit_or-zero_below : (n y : ℕ) → y < n → bit_or y 0 ≡ y
bit_or-zero_below zero y h = absurd (omega arith)
bit_or-zero_below (suc n) zero h = refl
bit_or-zero_below (suc n) (suc y) h =
    omega (arith, bit_or_step (suc y) 0, bit_or-zero_below n (suc y / 2) (omega arith))

-- Digits below `k` and a multiple of 2 ^ k do not meet.
pub bit_or-low : (k x y : ℕ) → y < 2 ^ k → bit_or (x * 2 ^ k) y ≡ x * 2 ^ k + y
bit_or-low zero x y h =
    let e : y ≡ 0 = omega arith in
    rw e (bit_or-zero_below (suc (x * 2 ^ 0)) (x * 2 ^ 0) (omega arith) ∙ omega arith)
bit_or-low (suc k) x y h =
    let double = mul-two-pow-suc x k in
    let half : x * 2 ^ suc k / 2 ≡ x * 2 ^ k = omega arith in
    let even : x * 2 ^ suc k % 2 ≡ 0 = omega arith in
    bit_or_step (x * 2 ^ suc k) y
    ∙ omega (
      arith,
      ap (λ t. bit_or t (y / 2)) half,
      ap (λ t. max t (y % 2)) even,
      bit_or-low k x (y / 2) (omega (arith, pow-suc 2 k)),
    )

zero_bit_or_below : (n y : ℕ) → y < n → bit_or 0 y ≡ y
zero_bit_or_below zero y h = absurd (omega arith)
zero_bit_or_below (suc n) zero h = refl
zero_bit_or_below (suc n) (suc y) h =
    omega (arith, bit_or_step 0 (suc y), zero_bit_or_below n (suc y / 2) (omega arith))

pub bit_or-high : (k x y : ℕ) → y < 2 ^ k → bit_or y (x * 2 ^ k) ≡ x * 2 ^ k + y
bit_or-high zero x y h =
    let e : y ≡ 0 = omega arith in
    rw e (zero_bit_or_below (suc (x * 2 ^ 0)) (x * 2 ^ 0) (omega arith) ∙ omega arith)
bit_or-high (suc k) x y h =
    let double = mul-two-pow-suc x k in
    let half : x * 2 ^ suc k / 2 ≡ x * 2 ^ k = omega arith in
    let even : x * 2 ^ suc k % 2 ≡ 0 = omega arith in
    bit_or_step y (x * 2 ^ suc k)
    ∙ omega (
      arith,
      ap (bit_or (y / 2)) half,
      ap (max (y % 2)) even,
      bit_or-high k x (y / 2) (omega (arith, pow-suc 2 k)),
    )

pub low_digits : (b : ℕ) → bit_and b 127 ≡ b % 128
low_digits b = bit_and_mask 7 b

pub high_digit : (b : ℕ) → b < 256 → bit_and b 128 ≡ b - b % 128
high_digit b h = bit_and-high 8 7 b h (omega arith)

pub set_high : (b : ℕ) → b < 128 → bit_or b 128 ≡ 128 + b
set_high b h = bit_or-high 7 1 b h

pub or_digits : (x b : ℕ) → b < 128 → bit_or (x * 128) b ≡ x * 128 + b
or_digits x b h = bit_or-low 7 x b h
