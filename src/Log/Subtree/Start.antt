-- ===== src/Log/Subtree/Start.antt =====
-- Where `subtree_hash` starts: the largest complete subtree on the right edge.
use native.Mathlib.Nat.{pow-suc}
use native.Mathlib.Decide.{dec_lt}
use merkle_tree_certs.Prelude.{ℕ, suc, ◌+◌, ◌-◌, ◌*◌, ◌%◌, ◌^◌, ◌≤◌, ◌<◌}
use merkle_tree_certs.Prelude.{◌≡◌, arith}
use merkle_tree_certs.Bits.{trailing_zeros64, complement64}
use merkle_tree_certs.Bits.Counts.{trailing_zeros64_lem}
use merkle_tree_certs.Bits.Powers.{
  IsMultiple, IsMultiple-trans, IsMultiple-two-pow, IsMultiple-sub, IsMultiple-small,
  mul-two-pow-suc,
}

-- `^last - start` on a uint64.
abbrev pub edge_word : ℕ → ℕ → ℕ
edge_word start end = (complement64 (end - 1) + 2 ^ 64 - start) % 2 ^ 64

-- It is `-(start + end)`, up to multiples of 2 ^ 64.
edge_word_sum :
    (start end : ℕ)
    → start < end
    → end < 2 ^ 64
    → IsMultiple (2 ^ 64) (edge_word start end + (start + end))
edge_word_sum start end h p = elim (dec_lt (2 ^ 64) (start + end)) [
  | yes above ↦ (2, omega arith)
  | no below ↦ (1, omega arith)
]

-- The last part of a subtree is no multiple of more than its size.
edge_level :
    (start end k d : ℕ)
    → start < end
    → end ≤ start + 2 ^ k
    → k < d
    → IsMultiple (2 ^ k) start
    → IsMultiple (2 ^ d) (start + end)
    → ⊥
edge_level start end k d less size deep (m, e) me =
    absurd
      (omega (arith, IsMultiple-small (2 ^ suc k) (end - start) rest (omega (arith, pow-suc 2 k))))
  where
    twice : IsMultiple (2 ^ suc k) (start + start)
    twice = (m, omega (arith, e, mul-two-pow-suc m k))

    regroup : start + end ≡ (start + start) + (end - start)
    regroup = omega arith

    whole : IsMultiple (2 ^ suc k) (start + end)
    whole =
        IsMultiple-trans (2 ^ suc k) (2 ^ d) (start + end) (IsMultiple-two-pow (suc k) d deep) me

    rest : IsMultiple (2 ^ suc k) (end - start)
    rest = IsMultiple-sub (2 ^ suc k) (start + start) (end - start) twice (rw (← regroup) whole)

at_top :
    {start : ℕ} (k : ℕ) → ¬ (k < 64) → k ≤ 64 → IsMultiple (2 ^ k) start → IsMultiple (2 ^ 64) start
at_top {start} k top within m =
    IsMultiple-trans (2 ^ 64) (2 ^ k) start (IsMultiple-two-pow 64 k (omega arith)) m

-- The word is not zero: it would make `start + end` a multiple of 2 ^ 64.
edge_word_pos :
    (start end k : ℕ)
    → start < end
    → end < 2 ^ 64
    → k ≤ 64
    → IsMultiple (2 ^ k) start
    → end ≤ start + 2 ^ k
    → 0 < edge_word start end
edge_word_pos start end k less p within multiple size = elim (dec_lt 0 (edge_word start end)) [
  | yes pos ↦ pos
  | no zero_word ↦
      let whole : IsMultiple (2 ^ 64) (start + end) =
        IsMultiple-sub (2 ^ 64) 0 (start + end) (0, omega arith)
          (let e : 0 + (start + end) ≡ edge_word start end + (start + end) = omega arith in
            rw e (edge_word_sum start end less p)) in
      elim (dec_lt k 64) [
        | yes low ↦ absurd (edge_level start end k 64 less size low multiple whole)
        | no top ↦ absurd (
            omega (
              arith,
              IsMultiple-small (2 ^ 64) start (at_top k top within multiple) (omega arith),
              IsMultiple-small (2 ^ 64) (start + end) whole,
            ))
      ]
]

module _ (start end k : ℕ) (less : start < end) (p : end < 2 ^ 64) (within : k ≤ 64)
    (multiple : IsMultiple (2 ^ k) start) (size : end ≤ start + 2 ^ k) where
  abbrev pub level_of : ℕ
  level_of = trailing_zeros64 (edge_word start end)

  sum_IsMultiple : IsMultiple (2 ^ level_of) (start + end)
  sum_IsMultiple =
      let (t_lt, (q, e)) =
        trailing_zeros64_lem (edge_word start end) (omega arith)
          (edge_word_pos start end k less p within multiple size) in
      IsMultiple-sub (2 ^ level_of) (edge_word start end) (start + end)
        (2 * q + 1, omega (arith, e))
        (IsMultiple-trans (2 ^ level_of) (2 ^ 64) (edge_word start end + (start + end))
          (IsMultiple-two-pow level_of 64 (omega arith)) (edge_word_sum start end less p))

  -- The level is no higher than the subtree.
  pub level_of_le : level_of ≤ k
  level_of_le = elim (dec_lt k level_of) [
    | yes above ↦ absurd (edge_level start end k level_of less size above multiple sum_IsMultiple)
    | no fine ↦ omega arith
  ]

  pub start_IsMultiple : IsMultiple (2 ^ level_of) start
  start_IsMultiple =
      IsMultiple-trans (2 ^ level_of) (2 ^ k) start (IsMultiple-two-pow level_of k level_of_le)
        multiple

  -- `end` is where a complete subtree of that level ends.
  pub end_IsMultiple : IsMultiple (2 ^ level_of) end
  end_IsMultiple = IsMultiple-sub (2 ^ level_of) start end start_IsMultiple sum_IsMultiple
