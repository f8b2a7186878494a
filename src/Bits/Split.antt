-- ===== src/Bits/Split.antt =====
-- The highest digit in which two words differ, and words with their low digits cleared.
use Prim.Native.Nat.{min, differ}
use native.Mathlib.Nat.{pow-suc, mod-eq_of_lt, mul-add-mod_self_right}
use native.Mathlib.Decide.{dec_lt, ℕ_discrete}
use merkle_tree_certs.Prelude.{ℕ, zero, suc, ◌+◌, ◌-◌, ◌*◌, ◌/◌, ◌%◌, ◌^◌, ◌≤◌, ◌<◌}
use merkle_tree_certs.Prelude.{bit_and, bit_xor, ◌≡◌, refl, ap, ◌∙◌, arith}
use merkle_tree_certs.Bits.{len64, complement64}
use merkle_tree_certs.Bits.Counts.{HasDigits, len64_lem}
use merkle_tree_certs.Bits.Digits.{
  bit_and_step, bit_and_mask, bit_xor_step, mod-double, differ-one, differ-zero,
}
use merkle_tree_certs.Bits.Powers.{two-pow-pos, two-pow-le, mul-two-pow-suc, IsMultiple}

-- The number of digits is determined.
HasDigits-unique : (j k x : ℕ) → HasDigits j x → HasDigits k x → j ≡ k
HasDigits-unique j k x (lj, hj) (lk, hk) = elim (dec_lt j k) [
  | yes less ↦ absurd (omega (arith, two-pow-le (suc j) k less))
  | no same ↦ elim (dec_lt k j) [
    | yes less ↦ absurd (omega (arith, two-pow-le (suc k) j less))
    | no same' ↦ omega arith
  ]
]

pub len64-HasDigits : (k x : ℕ) → x < 2 ^ 64 → HasDigits k x → len64 x ≡ suc k
len64-HasDigits k x bound has =
    let (j, e, _, has') = len64_lem x bound (omega (arith, two-pow-pos k)) in
    e ∙ ap suc (HasDigits-unique j k x has' has)

differ_self : (x : ℕ) → x < 2 → differ x x ≡ 0
differ_self zero h = refl
differ_self (suc x) h = let e : x ≡ 0 = omega arith in rw e refl

differ-less : (x y : ℕ) → differ x y < 2 → x < y → y < 2 → differ x y ≡ 1
differ-less x y b h p = let e : x ≡ 0 = omega arith in let d : y ≡ 1 = omega arith in rw (e, d) refl

bit_xor-self_below : (n a : ℕ) → a < n → bit_xor a a ≡ 0
bit_xor-self_below zero a h = absurd (omega arith)
bit_xor-self_below (suc n) zero h = refl
bit_xor-self_below (suc n) (suc a) h = omega (
  arith,
  bit_xor_step (suc a) (suc a),
  differ_self (suc a % 2) (omega arith),
  bit_xor-self_below n (suc a / 2) (omega arith),
)

-- Where two words part: above digit `j` they agree, `a` has a zero there and `b` a one.
pub record Parts (w a b : ℕ) : Type 0 where
  pub j : ℕ
  pub q : ℕ
  pub within : j < w
  pub has : HasDigits j (bit_xor a b)
  pub a_low : 2 * q * 2 ^ j ≤ a
  pub a_high : a < (2 * q + 1) * 2 ^ j
  pub b_low : (2 * q + 1) * 2 ^ j ≤ b
  pub b_high : b < (2 * q + 2) * 2 ^ j

differ_lt : (x y : ℕ) → x < 2 → y < 2 → differ x y < 2
differ_lt x zero p q = omega (arith, differ-zero x)
differ_lt x (suc y) p q = let e : y ≡ 0 = omega arith in rw e (omega (arith, differ-one x p))

pub parts : (w a b : ℕ) → b < 2 ^ w → a < b → Parts w a b
parts zero a b h less = absurd (omega arith)
parts (suc w) a b h less = elim (ℕ_discrete (a / 2) (b / 2)) [
  | yes same ↦
      let e : bit_xor (a / 2) (b / 2) ≡ 0 =
        rw same (bit_xor-self_below (suc (b / 2)) (b / 2) (omega arith)) in
      let d : differ (a % 2) (b % 2) ≡ 1 =
        differ-less (a % 2) (b % 2) (differ_lt (a % 2) (b % 2) (omega arith) (omega arith))
          (omega arith) (omega arith) in
      record {
        j = 0;
        q = a / 2;
        within = omega arith;
        has = (omega (arith, bit_xor_step a b), omega (arith, bit_xor_step a b));
        a_low = omega arith;
        a_high = omega arith;
        b_low = omega arith;
        b_high = omega arith;
      }
  | no other ↦
      let p = parts w (a / 2) (b / 2) (omega (arith, pow-suc 2 w)) (omega arith) in
      let small = differ_lt (a % 2) (b % 2) (omega arith) (omega arith) in
      let s0 = mul-two-pow-suc (2 * p.q) p.j in
      let s1 = mul-two-pow-suc (2 * p.q + 1) p.j in
      let s2 = mul-two-pow-suc (2 * p.q + 2) p.j in
      let al = p.a_low in
      let ah = p.a_high in
      let bl = p.b_low in
      let bh = p.b_high in
      let hl = p.has.0 in
      let hh = p.has.1 in
      let wi = p.within in
      record {
        j = suc p.j;
        q = p.q;
        within = omega arith;
        has = (
          omega (arith, bit_xor_step a b, pow-suc 2 p.j),
          omega (arith, bit_xor_step a b, pow-suc 2 (suc p.j)),
        );
        a_low = omega arith;
        a_high = omega arith;
        b_low = omega arith;
        b_high = omega arith;
      }
]

min-zero : (x : ℕ) → min x 0 ≡ 0
min-zero x = omega arith

-- All digits but the lowest `k` of a word of `w` digits.
pub bit_and-high : (w k x : ℕ) → x < 2 ^ w → k ≤ w → bit_and x (2 ^ w - 2 ^ k) ≡ x - x % 2 ^ k
bit_and-high zero k x h p =
    let e : k ≡ 0 = omega arith in let d : x ≡ 0 = omega arith in rw (e, d) refl
bit_and-high (suc w) zero x h p = bit_and_mask (suc w) x ∙ mod-eq_of_lt h ∙ omega arith
bit_and-high (suc w) (suc k) x h p =
    let wide = pow-suc 2 w in
    let narrow = pow-suc 2 k in
    let half : (2 ^ suc w - 2 ^ suc k) / 2 ≡ 2 ^ w - 2 ^ k = omega arith in
    let even : (2 ^ suc w - 2 ^ suc k) % 2 ≡ 0 = omega arith in
    let remainder : x % 2 ^ suc k ≡ x / 2 % 2 ^ k * 2 + x % 2 =
      ap (λ t. x % t) narrow ∙ mod-double (2 ^ k) x (two-pow-pos k) in
    bit_and_step x (2 ^ suc w - 2 ^ suc k)
    ∙ omega (
      arith,
      ap (bit_and (x / 2)) half,
      ap (min (x % 2)) even,
      min-zero (x % 2),
      bit_and-high w k (x / 2) (omega arith) (omega arith),
      remainder,
    )

-- Clearing the lowest `k` digits.
pub clear_low :
    (k x : ℕ) → x < 2 ^ 64 → k ≤ 64 → bit_and x (complement64 (2 ^ k - 1)) ≡ x - x % 2 ^ k
clear_low k x h p =
    let e : 2 ^ 64 - 1 - (2 ^ k - 1) ≡ 2 ^ 64 - 2 ^ k = omega (arith, two-pow-pos k) in
    ap (bit_and x) e ∙ bit_and-high 64 k x h p

-- The remainder of a number written with its quotient.
pub mod-written : (d m r : ℕ) → r < d → (m * d + r) % d ≡ r
mod-written d m r h = mul-add-mod_self_right m d r ∙ mod-eq_of_lt h

-- A number in the block of `d` before a multiple of `d`.
pub mod-before : (d m x : ℕ) → IsMultiple d m → x < m → m ≤ x + d → x % d ≡ x + d - m
mod-before d m x (zero, e) less close = absurd (omega arith)
mod-before d m x (suc q, e) less close =
    let f : x ≡ q * d + (x + d - m) = omega arith in
    ap (λ t. t % d) f ∙ mod-written d q (x + d - m) (omega arith)
