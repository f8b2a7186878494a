-- ===== src/Log/Consistency/Split.antt =====
-- Where `subtreeSubproof` of demo/log.go splits a window.
use native.Mathlib.Nat.{pow-suc}
use native.Mathlib.Decide.{dec_lt, ℕ_discrete}
use merkle_tree_certs.Prelude.{ℕ, suc, ◌+◌, ◌-◌, ◌%◌, ◌^◌, ◌≤◌, ◌<◌, ◌≢◌}
use merkle_tree_certs.Prelude.{◌≡◌, ap, ◌∙◌, arith, ◌⊎◌, inl, inr}
use merkle_tree_certs.Prelude.{ok}
use merkle_tree_certs.Bits.{len64}
use merkle_tree_certs.Bits.Counts.{len64_lem}
use merkle_tree_certs.Bits.Powers.{
  two-pow-le, IsMultiple, IsMultiple-sub, IsMultiple-add, IsMultiple-trans, IsMultiple-two-pow,
  IsMultiple-small,
}
use merkle_tree_certs.Log.Consistency.{split_size}

-- A range that starts at a multiple of a power of two that is no less than its size.
abbrev pub Aligned : ℕ → ℕ → ℕ → Type 0
Aligned k start end = IsMultiple (2 ^ k) start × (end ≤ start + 2 ^ k)

Aligned-lower : (j k start : ℕ) → j ≤ k → IsMultiple (2 ^ k) start → IsMultiple (2 ^ j) start
Aligned-lower j k start h m = IsMultiple-trans (2 ^ j) (2 ^ k) start (IsMultiple-two-pow j k h) m

-- Of two multiples of `d`, the larger is `d` further.
IsMultiple-gap : (d a b : ℕ) → IsMultiple d a → IsMultiple d b → a < b → a + d ≤ b
IsMultiple-gap d a b m m' less = elim (dec_lt (b - a) d) [
  | yes close ↦
      let e : b ≡ a + (b - a) = omega arith in
      let none = IsMultiple-small d (b - a) (IsMultiple-sub d a (b - a) m (rw e at m')) close in
      absurd (omega (arith, none))
  | no far ↦ omega arith
]

-- A subtree that has entries on both sides of the split starts where the window starts.
pub across_start :
    (j k w start end lo hi : ℕ)
    → Aligned j start end
    → Aligned w lo hi
    → k < w
    → lo ≤ start
    → start < lo + 2 ^ k
    → lo + 2 ^ k < end
    → start ≡ lo
across_start j k w start end lo hi (ms, size) (ml, _) less lo_le inner over =
    elim (ℕ_discrete start lo) [
      | yes same ↦ same
      | no other ↦ elim (dec_lt k j) [
        | yes above ↦ absurd (
            omega (
              arith,
              pow-suc 2 k,
              IsMultiple-gap (2 ^ suc k) lo start (Aligned-lower (suc k) w lo less ml)
                  (Aligned-lower (suc k) j start above ms) (omega arith),
            ))
        | no below ↦ absurd (
            omega (
              arith,
              IsMultiple-gap (2 ^ j) start (lo + 2 ^ k) ms
                  (IsMultiple-add (2 ^ j) lo (2 ^ k) (Aligned-lower j w lo (omega arith) ml)
                    (IsMultiple-two-pow j k (omega arith)))
                  inner,
            ))
      ]
    ]

pub whole_or_split : (start end lo hi : ℕ) → ((start ≡ lo) × (end ≡ hi)) ⊎ (start ≡ lo → end ≢ hi)
whole_or_split start end lo hi = elim (ℕ_discrete start lo) [
  | no other ↦ inr (λ p. absurd (other p))
  | yes p ↦ elim (ℕ_discrete end hi) [ yes q ↦ inl (p, q) | no other ↦ inr (λ p'. other) ]
]

pub ends_before : {start end lo hi : ℕ} → (start ≡ lo → end ≢ hi) → start ≡ lo → end ≤ hi → end < hi
ends_before {end} {hi} other p c = elim (dec_lt end hi) [
  | yes less ↦ less
  | no same ↦ absurd (other p (omega arith))
]

pub two_entries :
    {start end lo hi : ℕ}
    → (start ≡ lo → end ≢ hi)
    → lo ≤ start
    → start < end
    → end ≤ hi
    → lo + 1 < hi
two_entries {start} {end} {lo} {hi} other a b c = elim (ℕ_discrete start lo) [
  | yes p ↦ omega (arith, ends_before other p c)
  | no later ↦ omega arith
]

-- Where the window of two entries or more is split.
pub split_at :
    (w lo hi : ℕ)
    → hi < 2 ^ 64
    → Aligned w lo hi
    → lo + 1 < hi
    → (k : ℕ) × (split_size (len64 ((hi + 2 ^ 64 - lo - 1) % 2 ^ 64)) ≡ ok (2 ^ k))
      × (k < w)
      × (lo + 2 ^ k < hi)
      × (hi ≤ lo + 2 ^ k + 2 ^ k)
      × IsMultiple (2 ^ k) lo
      × IsMultiple (2 ^ k) (lo + 2 ^ k)
split_at w lo hi bound (m, size) two =
    let e : (hi + 2 ^ 64 - lo - 1) % 2 ^ 64 ≡ hi - lo - 1 = omega arith in
    let (k, ek, _, (low, high)) = len64_lem (hi - lo - 1) (omega arith) (omega arith) in
    let less : k < w = elim (dec_lt k w) [
      | yes l ↦ l
      | no g ↦ absurd (omega (arith, two-pow-le w k (omega arith)))
    ] in
    let mk = Aligned-lower k w lo (omega arith) m in
    (
      k,
      ap (λ t. split_size (len64 t)) e ∙ ap split_size ek,
      less,
      omega arith,
      omega (arith, pow-suc 2 k),
      mk,
      IsMultiple-add (2 ^ k) lo (2 ^ k) mk (1, omega arith),
    )
