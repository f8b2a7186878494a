-- ===== src/Bits/Powers.antt =====
-- Powers of two, and shifts as division by them.
use native.Mathlib.Nat.{pow-suc, one-le-pow, pow-le-pow_right, div-div-eq-div-mul}
use native.Mathlib.Nat.{
  mul-sub, mul_comm, div-le_self, mul_assoc, mul-mod_left, div-add-mod', div-eq_of_lt-le,
}
use native.Mathlib.Nat.{lt_of_mul-lt-mul_left, le_of_mul-le-mul_left, eq_of_mul-eq-mul_left}
use native.Mathlib.Decide.{dec_lt}
use merkle_tree_certs.Prelude.{ℕ, zero, suc, ◌+◌, ◌-◌, ◌*◌, ◌/◌, ◌%◌, ◌^◌, ◌≤◌, ◌<◌}
use merkle_tree_certs.Prelude.{◌≡◌, ◌⊎◌, sym, ap, ◌∙◌, arith}

pub two-pow-pos : (k : ℕ) → 0 < 2 ^ k
two-pow-pos k = one-le-pow k 2 (omega arith)

-- A product with the next power.
pub mul-two-pow-suc : (x j : ℕ) → x * 2 ^ suc j ≡ 2 * (x * 2 ^ j)
mul-two-pow-suc x j = omega (arith, ap (λ (p : ℕ). x * p) (pow-suc 2 j))

-- The same, as the program writes the next level.
pub mul-two-pow-next : (q k : ℕ) → q * 2 ^ (k + 1) ≡ 2 * (q * 2 ^ k)
mul-two-pow-next q k = let e : k + 1 ≡ suc k = omega arith in rw e (mul-two-pow-suc q k)

pub two-pow-add : (a b : ℕ) → 2 ^ (a + b) ≡ 2 ^ a * 2 ^ b
two-pow-add a zero = let e : a + 0 ≡ a = omega arith in rw e (omega arith)
two-pow-add a (suc b) =
    let e : a + suc b ≡ suc (a + b) = omega arith in
    rw e
      (omega (arith, pow-suc 2 (a + b), two-pow-add a b, ap (λ (t : ℕ). 2 ^ a * t) (pow-suc 2 b)))

pub two-pow-le : (a b : ℕ) → a ≤ b → 2 ^ a ≤ 2 ^ b
two-pow-le a b h = pow-le-pow_right (omega arith) h

-- The exponent between two powers is the only one.
pub two-pow-between : (a b n : ℕ) → 2 ^ a < n → n ≤ 2 * 2 ^ a → 2 ^ b < n → n ≤ 2 * 2 ^ b → a ≡ b
two-pow-between a b n la ha lb hb = elim (dec_lt a b) [
  | yes less ↦ absurd (omega (arith, two-pow-le (suc a) b less, pow-suc 2 a))
  | no same ↦ elim (dec_lt b a) [
    | yes less ↦ absurd (omega (arith, two-pow-le (suc b) a less, pow-suc 2 b))
    | no same' ↦ omega arith
  ]
]

-- Shifting once more halves.
pub shift-suc : (x k : ℕ) → x / 2 ^ k / 2 ≡ x / 2 ^ suc k
shift-suc x k = div-div-eq-div-mul x (2 ^ k) 2 ∙ ap (λ t. x / t) (sym (pow-suc 2 k))

-- A multiple of `d`.
abbrev pub IsMultiple : ℕ → ℕ → Type 0
IsMultiple d n = (q : ℕ) × (n ≡ q * d)

pub IsMultiple-sub : (d n m : ℕ) → IsMultiple d n → IsMultiple d (n + m) → IsMultiple d m
IsMultiple-sub d n m (q, e) (p, f) = (p - q, omega (arith, mul-sub d p q))

pub IsMultiple-add : (d n m : ℕ) → IsMultiple d n → IsMultiple d m → IsMultiple d (n + m)
IsMultiple-add d n m (q, e) (p, f) = (q + p, omega arith)

pub IsMultiple-trans : (d e n : ℕ) → IsMultiple d e → IsMultiple e n → IsMultiple d n
IsMultiple-trans d e n (q, f) (p, g) = (p * q, g ∙ ap (λ t. p * t) f ∙ sym (mul_assoc p q d))

pub IsMultiple-two-pow : (a b : ℕ) → a ≤ b → IsMultiple (2 ^ a) (2 ^ b)
IsMultiple-two-pow a b h =
    let e : b ≡ (b - a) + a = omega arith in
    (2 ^ (b - a), ap (λ t. 2 ^ t) e ∙ two-pow-add (b - a) a)

pub IsMultiple-mod : (d n : ℕ) → 0 < d → IsMultiple d n → n % d ≡ 0
IsMultiple-mod d n h (q, e) = rw e (mul-mod_left q d)

pub mod-IsMultiple : (d n : ℕ) → n % d ≡ 0 → IsMultiple d n
mod-IsMultiple d n h = (n / d, omega (arith, div-add-mod' n d))

-- A multiple of `d` below `d` is zero.
pub IsMultiple-small : (d n : ℕ) → IsMultiple d n → n < d → n ≡ 0
IsMultiple-small d n (zero, e) h = omega arith
IsMultiple-small d n (suc q, e) h = absurd (omega arith)

-- Dividing a multiple loses nothing.
pub div-IsMultiple : (d n : ℕ) → 0 < d → IsMultiple d n → n / d * d ≡ n
div-IsMultiple d n h m = omega (arith, div-add-mod' n d, IsMultiple-mod d n h m)

-- The quotient of the last number before a multiple.
pub div-pred : (d q : ℕ) → 0 < d → (suc q * d - 1) / d ≡ q
div-pred d q h = div-eq_of_lt-le d (omega arith) (omega arith)

-- A common factor of both sides is dropped.
pub lt_of_mul : (d a b : ℕ) → a * d < b * d → a < b
lt_of_mul d a b h = lt_of_mul-lt-mul_left d (omega arith)

pub le_of_mul : (d a b : ℕ) → 0 < d → a * d ≤ b * d → a ≤ b
le_of_mul d a b p h = le_of_mul-le-mul_left {k = d} (omega arith) p

pub eq_of_mul : (d a b : ℕ) → 0 < d → a * d ≡ b * d → a ≡ b
eq_of_mul d a b p h = eq_of_mul-eq-mul_left d p a b (omega arith)

-- A power split at a lower one.
pub two-pow-split : (t k : ℕ) → t ≤ k → 2 ^ k ≡ 2 ^ (k - t) * 2 ^ t
two-pow-split t k h =
    let e : k ≡ (k - t) + t = omega arith in ap (λ j. 2 ^ j) e ∙ two-pow-add (k - t) t

-- A shift in two steps.
pub shift-split : (x i j : ℕ) → i ≤ j → x / 2 ^ j ≡ x / 2 ^ i / 2 ^ (j - i)
shift-split x i j h =
    ap (λ t. x / t) (two-pow-split i j h ∙ mul_comm (2 ^ (j - i)) (2 ^ i))
    ∙ sym (div-div-eq-div-mul x (2 ^ i) (2 ^ (j - i)))

pub shift-le : (x i j : ℕ) → i ≤ j → x / 2 ^ j ≤ x / 2 ^ i
shift-le x i j h = rw (shift-split x i j h) (div-le_self (x / 2 ^ i) (2 ^ (j - i)))

pub two-pow-next : (k : ℕ) → 2 ^ (k + 1) ≡ 2 * 2 ^ k
two-pow-next k = omega (arith, mul-two-pow-next 1 k)

-- Node `x` of a level begins where its parent begins, or one node further.
pub shift-even : (x k : ℕ) → x % 2 ≡ 0 → x * 2 ^ k ≡ x / 2 * 2 ^ (k + 1)
shift-even x k h =
    let e : x ≡ 2 * (x / 2) = omega arith in
    ap (λ t. t * 2 ^ k) e ∙ omega (arith, mul-two-pow-next (x / 2) k)

pub shift-odd : (x k : ℕ) → x % 2 ≡ 1 → x * 2 ^ k ≡ x / 2 * 2 ^ (k + 1) + 2 ^ k
shift-odd x k h =
    let e : x ≡ 2 * (x / 2) + 1 = omega arith in
    ap (λ t. t * 2 ^ k) e ∙ omega (arith, mul-two-pow-next (x / 2) k)

pub shift-odd_pred : (x k : ℕ) → x % 2 ≡ 1 → (x - 1) * 2 ^ k ≡ x / 2 * 2 ^ (k + 1)
shift-odd_pred x k h =
    let e : x - 1 ≡ 2 * (x / 2) = omega arith in
    ap (λ t. t * 2 ^ k) e ∙ omega (arith, mul-two-pow-next (x / 2) k)

pub parity : (x : ℕ) → (x % 2 ≡ 0) ⊎ (x % 2 ≡ 1)
parity x = omega arith

pub mul_mono : (d a b : ℕ) → a ≤ b → a * d ≤ b * d
mul_mono d a b h = grind arith
