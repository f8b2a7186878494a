-- ===== src/Log/Subtree/Valid.antt =====
-- What `is_valid_subtree` decides.
use native.Mathlib.Nat.{pow-suc, mod-eq_of_lt}
use native.Mathlib.Decide.{dec_lt, ℕ_discrete}
use merkle_tree_certs.Prelude.{ℕ, zero, suc, ◌+◌, ◌-◌, ◌%◌, ◌^◌, ◌≤◌, ◌<◌}
use merkle_tree_certs.Prelude.{◌≡◌, sym, ◌∙◌, refl, arith, ◌↔◌}
use merkle_tree_certs.Prelude.{true, false, ◌==◌, ==_iff, le→ltb, lt→ltb}
use merkle_tree_certs.Bits.{len64}
use merkle_tree_certs.Bits.Digits.{bit_and_mask}
use merkle_tree_certs.Bits.Counts.{len64_lem, len64-zero}
use merkle_tree_certs.Bits.Powers.{
  two-pow-le, two-pow-pos, IsMultiple, IsMultiple-mod, mod-IsMultiple, IsMultiple-trans,
  IsMultiple-two-pow, IsMultiple-small,
}
use merkle_tree_certs.Log.Subtree.{is_valid_subtree}

-- A subtree in the sense of the draft: `start` is a multiple of a power of two that is no less than
-- the size (BIT_CEIL is the least such power, and divides the others).
abbrev pub IsSubtree : ℕ → ℕ → Type 0
IsSubtree start end = (start ≤ end) × ((k : ℕ) × IsMultiple (2 ^ k) start × (end ≤ start + 2 ^ k))

-- The mask for `n` binary digits, for 64 of them too.
ceil_mask : (n : ℕ) → n ≤ 64 → (2 ^ (64 - (64 - n)) % 2 ^ 64 + 2 ^ 64 - 1) % 2 ^ 64 ≡ 2 ^ n - 1
ceil_mask n h = elim (dec_lt n 64) [
  | yes less ↦
      let e : 64 - (64 - n) ≡ n = omega arith in
      let fits : 2 ^ n < 2 ^ 64 =
        omega (arith, two-pow-le (suc n) 64 less, pow-suc 2 n, two-pow-pos n) in
      rw (e, mod-eq_of_lt fits) (omega (arith, two-pow-pos n))
  | no full ↦ let e : n ≡ 64 = omega arith in rw e refl
]

-- The number of digits of `d`, zero included.
pub len64_bounds :
    (d : ℕ) → d < 2 ^ 64 → (len64 d ≤ 64) × (d < 2 ^ len64 d) × ((k : ℕ) → d < 2 ^ k → len64 d ≤ k)
len64_bounds zero h = rw len64-zero (omega arith, omega arith, λ k p. omega arith)
len64_bounds (suc d) h =
    let (j, e, less, (low, high)) = len64_lem (suc d) h (omega arith) in
    rw e (
      omega arith,
      high,
      λ k p. elim (dec_lt j k) [
        | yes less' ↦ less'
        | no more ↦ absurd (omega (arith, two-pow-le k j (omega arith)))
      ],
    )

-- Between different ends the test is on the remainder.
is_valid_subtree_lem :
    (start end : ℕ)
    → start < end
    → end < 2 ^ 64
    → is_valid_subtree start end ≡ (start % 2 ^ len64 (end - start - 1) == 0)
unfolding is_valid_subtree
is_valid_subtree_lem start end h p =
    let (within, _, _) = len64_bounds (end - start - 1) (omega arith) in
    rw (le→ltb end start (omega arith), differ, ceil_mask _ within, bit_and_mask _ start)
  where
    differ : (start == end) ≡ false
    differ = ground arith

empty_valid : (start end : ℕ) → start ≡ end → is_valid_subtree start end ≡ true
unfolding is_valid_subtree
empty_valid start end e = rw (le→ltb end start (omega arith), (==_iff start end).1 e) refl

not_reversed : (start end : ℕ) → end < start → is_valid_subtree start end ≡ false
unfolding is_valid_subtree
not_reversed start end h = rw (lt→ltb end start h) refl

-- For ends below 2 ^ 64, `IsValidSubtree` accepts exactly the subtrees of the draft: the ranges whose
-- start is a multiple of a power of two that is no less than their size.
pub is_valid_subtree_iff :
    (start end : ℕ) → end < 2 ^ 64 → (is_valid_subtree start end ≡ true) ↔ IsSubtree start end
is_valid_subtree_iff start end p = elim (dec_lt start end) [
  | yes less ↦ rw (is_valid_subtree_lem start end less p) (forth less, back less)
  | no more ↦ elim (ℕ_discrete start end) [
    | yes same ↦ (
      λ e. (omega arith, (0, (start, omega arith), omega arith)),
      λ t. empty_valid start end same,
    )
    | no above ↦ (λ e. cc (not_reversed start end (omega arith)), λ t. absurd (omega arith))
  ]
]
  where
    digits : ℕ
    digits = len64 (end - start - 1)

    forth : start < end → (start % 2 ^ digits == 0) ≡ true → IsSubtree start end
    forth less e =
        let (_, high, _) = len64_bounds (end - start - 1) (omega arith) in
        (omega arith, (digits, mod-IsMultiple _ start ((==_iff _ _).0 e), omega arith))

    back : start < end → IsSubtree start end → (start % 2 ^ digits == 0) ≡ true
    back less (_, (k, multiple, size)) =
        let (_, _, least) = len64_bounds (end - start - 1) (omega arith) in
        (==_iff _ _).1 (
          IsMultiple-mod (2 ^ digits) start (two-pow-pos digits) (
            IsMultiple-trans (2 ^ digits) (2 ^ k) start
              (IsMultiple-two-pow digits k (least k (omega (arith, two-pow-pos k)))) multiple))

-- Below 2 ^ 64 a power of at most 64 serves.
pub subtree_level :
    (start end : ℕ)
    → IsSubtree start end
    → end < 2 ^ 64
    → (k : ℕ) × (k ≤ 64) × IsMultiple (2 ^ k) start × (end ≤ start + 2 ^ k)
subtree_level start end (ordered, (k, multiple, size)) p = elim (dec_lt k 65) [
  | yes small ↦ (k, omega arith, multiple, size)
  | no large ↦
      let zero_start : start ≡ 0 =
        IsMultiple-small (2 ^ k) start multiple (omega (arith, two-pow-le 64 k (omega arith))) in
      (64, omega arith, (0, omega arith), omega arith)
]

-- The power that the code uses serves too: one binary digit for each of the size less one.
pub subtree_digits :
    (start end : ℕ)
    → IsSubtree start end
    → start < end
    → end < 2 ^ 64
    → let k = len64 (end - start - 1) in (k ≤ 64) × IsMultiple (2 ^ k) start × (end ≤ start + 2 ^ k)
subtree_digits start end sub less p =
    let (within, high, _) = len64_bounds (end - start - 1) (omega arith) in
    let test =
      sym (is_valid_subtree_lem start end less p) ∙ (is_valid_subtree_iff start end p).1 sub in
    (within, mod-IsMultiple _ start ((==_iff _ _).0 test), omega arith)
