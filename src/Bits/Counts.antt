-- ===== src/Bits/Counts.antt =====
-- What `bits.Len64` and `bits.TrailingZeros64` count.
use native.Mathlib.Nat.{pow-suc}
use merkle_tree_certs.Prelude.{ℕ, zero, suc, ◌+◌, ◌*◌, ◌/◌, ◌%◌, ◌^◌, ◌≤◌, ◌<◌}
use merkle_tree_certs.Prelude.{◌≡◌, refl, ap, arith, ◌==◌, inl, inr, Bool-cases, ==_iff}
use merkle_tree_certs.Bits.{bit_length, len64, zeros_below, trailing_zeros64}

-- `suc k` is the number of binary digits of `x`.
abbrev pub HasDigits : ℕ → ℕ → Type 0
HasDigits k x = (2 ^ k ≤ x) × (x < 2 ^ suc k)

bit_length-zero : (f : ℕ) → bit_length f 0 ≡ 0
unfolding bit_length
bit_length-zero zero = refl
bit_length-zero (suc f) = refl

-- The digits of `x` are those of its half and one more.
digits_of_half :
    (f y x : ℕ)
    → (0 < y → (k : ℕ) × (bit_length f y ≡ suc k) × (k < f) × HasDigits k y)
    → y ≡ x / 2
    → 0 < x
    → (k : ℕ) × (suc (bit_length f y) ≡ suc k) × (k < suc f) × HasDigits k x
digits_of_half f zero x ih e p = (0, rw bit_length-zero, omega arith, (omega arith, omega arith))
digits_of_half f (suc y) x ih e p =
    let (k, eq, less, (low, high)) = ih (omega arith) in
    (suc k, rw eq, omega arith, (omega (arith, pow-suc 2 k), omega (arith, pow-suc 2 (suc k))))

bit_length_lem :
    (f x : ℕ) → x < 2 ^ f → 0 < x → (k : ℕ) × (bit_length f x ≡ suc k) × (k < f) × HasDigits k x
unfolding bit_length
bit_length_lem zero x h p = absurd (omega arith)
bit_length_lem (suc f) zero h p = absurd (omega arith)
bit_length_lem (suc f) (suc x) h p =
    digits_of_half f (suc x / 2) (suc x) (bit_length_lem f (suc x / 2) (omega (arith, pow-suc 2 f)))
      refl p

pub len64_lem :
    (x : ℕ) → x < 2 ^ 64 → 0 < x → (k : ℕ) × (len64 x ≡ suc k) × (k < 64) × HasDigits k x
unfolding len64
len64_lem x = bit_length_lem 64 x

pub len64-zero : len64 0 ≡ 0
unfolding len64
len64-zero = refl

-- `2 ^ t` times an odd number.
abbrev pub HasZeros : ℕ → ℕ → Type 0
HasZeros t x = (q : ℕ) × (x ≡ 2 ^ t * (2 * q + 1))

zeros_below_lem :
    (f x : ℕ) → x < 2 ^ f → 0 < x → (zeros_below f x < f) × HasZeros (zeros_below f x) x
unfolding zeros_below
zeros_below_lem zero x h p = absurd (omega arith)
zeros_below_lem (suc f) x h p = elim (Bool-cases (x % 2 == 0)) [
  | inl even ↦
      let e : x % 2 ≡ 0 = (==_iff _ _).0 even in
      let (less, (q, eq)) = zeros_below_lem f (x / 2) (omega (arith, pow-suc 2 f)) (omega arith) in
      rw even (
        omega arith,
        (
          q,
          omega (
            arith,
            eq,
            pow-suc 2 (zeros_below f (x / 2)),
            ap (λ t. t * (2 * q + 1)) (pow-suc 2 (zeros_below f (x / 2))),
          ),
        ),
      )
  | inr odd ↦ rw odd (omega arith, (x / 2, ground arith))
]

pub trailing_zeros64_lem :
    (x : ℕ) → x < 2 ^ 64 → 0 < x → (trailing_zeros64 x < 64) × HasZeros (trailing_zeros64 x) x
unfolding trailing_zeros64
trailing_zeros64_lem x = zeros_below_lem 64 x
