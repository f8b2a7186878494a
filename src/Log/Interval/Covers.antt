-- ===== src/Log/Interval/Covers.antt =====
-- The two subtrees that `SubtreesForInterval` returns.
use native.Mathlib.Nat.{pow-suc}
use native.Mathlib.Decide.{dec_lt}
use merkle_tree_certs.Prelude.{ℕ, zero, suc, ◌+◌, ◌-◌, ◌*◌, ◌%◌, ◌^◌, ◌≤◌, ◌<◌}
use merkle_tree_certs.Prelude.{
  ◌≡◌, refl, ap, ◌∙◌, arith, bit_and, bit_xor, ok, false, ltb, leb, le→ltb,
}
use merkle_tree_certs.Bits.{len64, complement64}
use merkle_tree_certs.Bits.Digits.{bit_and_mask}
use merkle_tree_certs.Bits.Counts.{len64_lem, len64-zero}
use merkle_tree_certs.Bits.Split.{Parts, parts, len64-HasDigits, clear_low, mod-written, mod-before}
use merkle_tree_certs.Bits.Powers.{
  two-pow-le, IsMultiple, IsMultiple-sub, IsMultiple-trans, IsMultiple-two-pow,
}
use merkle_tree_certs.Log.Subtree.Valid.{IsSubtree, len64_bounds}
use merkle_tree_certs.Log.Interval.{Covering, subtrees_for_interval}

-- Two adjacent subtrees that cover [start, end): the second ends where the interval ends, and the
-- first is at most twice as long as its part of the interval.
pub record IsCovering (start end : ℕ) (c : Covering) : Type 0 where
  pub left : IsSubtree c.start1 c.end1
  pub right : IsSubtree c.start2 c.end2
  pub adjacent : c.end1 ≡ c.start2
  pub from : c.start1 ≤ start
  pub inside : (start ≤ c.end1) × (c.end1 ≤ end)
  pub to : c.end2 ≡ end
  pub tight : c.end1 - c.start1 ≤ 2 * (c.end1 - start)

short_IsCovering :
    (start end : ℕ)
    → start ≤ end
    → end ≤ start + 1
    → IsCovering start end (record { start1 = start; end1 = end; start2 = end; end2 = end })
short_IsCovering start end order short = record {
  left = (order, (0, (start, omega arith), omega arith));
  right = (omega arith, (0, (end, omega arith), omega arith));
  adjacent = refl;
  from = omega arith;
  inside = (order, omega arith);
  to = refl;
  tight = omega arith;
}

IsMultiple-pred : (d n : ℕ) → IsMultiple d n → IsMultiple d (n - d)
IsMultiple-pred d n (zero, e) = (0, omega arith)
IsMultiple-pred d n (suc q, e) = (q, omega arith)

-- The next power of two is at most about twice the number.
len64_double : (d : ℕ) → d < 2 ^ 64 → 2 ^ len64 d ≤ 2 * d + 1
len64_double zero h = rw len64-zero (omega arith)
len64_double (suc d) h =
    let (k, e, _, (low, _)) = len64_lem (suc d) h (omega arith) in rw e (omega (arith, pow-suc 2 k))

-- The start of the second subtree, where the paths of `start` and `last` part.
abbrev middle : (start last : ℕ) → Parts 64 start last → ℕ
middle start last p = (2 * p.q + 1) * 2 ^ p.j

module _ (start last : ℕ) (bound : last < 2 ^ 64) (p : Parts 64 start last) where
  middle-IsMultiple : (k : ℕ) → k ≤ p.j → IsMultiple (2 ^ k) (middle start last p)
  middle-IsMultiple k h =
      IsMultiple-trans (2 ^ k) (2 ^ p.j) (middle start last p) (IsMultiple-two-pow k p.j h)
        (2 * p.q + 1, refl)

  split_digit : bit_xor start last < 2 ^ 64 → len64 (bit_xor start last) - 1 ≡ p.j
  split_digit small =
      ap (λ t. t - 1) (len64-HasDigits p.j (bit_xor start last) small p.has) ∙ omega arith

  xor_bound : bit_xor start last < 2 ^ 64
  xor_bound = let (_, high) = p.has in omega (arith, two-pow-le (suc p.j) 64 p.within)

  -- `mid`: the digits of `last` from the split on.
  mid_lem : bit_and last (complement64 (2 ^ p.j - 1)) ≡ middle start last p
  mid_lem =
      let lo = p.b_low in
      let hi = p.b_high in
      let w = p.within in
      let e : last ≡ (2 * p.q + 1) * 2 ^ p.j + (last - (2 * p.q + 1) * 2 ^ p.j) = omega arith in
      clear_low p.j last bound (omega arith)
      ∙ omega (
        arith,
        ap (λ t. t % 2 ^ p.j) e,
        mod-written (2 ^ p.j) (2 * p.q + 1) (last - (2 * p.q + 1) * 2 ^ p.j) (omega arith),
      )

  -- The digits of `^start` below the split: the distance of `start` to the last index before it.
  flipped : bit_and (complement64 start) (2 ^ p.j - 1) ≡ middle start last p - 1 - start
  flipped =
      let lo = p.a_low in
      let hi = p.a_high in
      let l = p.b_low in
      let w = p.within in
      let (m, em) : IsMultiple (2 ^ p.j) (2 ^ 64 - middle start last p) =
        IsMultiple-sub (2 ^ p.j) (middle start last p) (2 ^ 64 - middle start last p)
          (middle-IsMultiple p.j (omega arith))
          (let e : middle start last p + (2 ^ 64 - middle start last p) ≡ 2 ^ 64 = omega arith in
            rw e (IsMultiple-two-pow p.j 64 (omega arith))) in
      let e : 2 ^ 64 - 1 - start ≡ m * 2 ^ p.j + (middle start last p - 1 - start) = omega arith in
      bit_and_mask p.j (complement64 start)
      ∙ ap (λ t. t % 2 ^ p.j) e
      ∙ mod-written (2 ^ p.j) m (middle start last p - 1 - start) (omega arith)

  -- `start1`: a subtree of 2 ^ leftSplit entries ends where the second begins.
  module _ (d : ℕ) (distance : d ≡ middle start last p - 1 - start) where
    left_digits : (len64 d ≤ p.j) × (d < 2 ^ len64 d) × (2 ^ len64 d ≤ 2 * d + 1)
    left_digits =
        let lo = p.a_low in
        let hi = p.a_high in
        let l = p.b_low in
        let (_, high, least) = len64_bounds d (omega arith) in
        (least p.j (omega arith), high, len64_double d (omega arith))

    start1_lem : bit_and start (complement64 (2 ^ len64 d - 1)) ≡ middle start last p - 2 ^ len64 d
    start1_lem =
        let hi = p.a_high in
        let l = p.b_low in
        let w = p.within in
        let (k, high, _) = left_digits in
        let r =
          mod-before (2 ^ len64 d) (middle start last p) start (middle-IsMultiple (len64 d) k) hi
            (omega arith) in
        clear_low (len64 d) start (omega arith) (omega arith) ∙ omega arith

    left_IsSubtree : IsSubtree (middle start last p - 2 ^ len64 d) (middle start last p)
    left_IsSubtree = (
      omega arith,
      (
        len64 d,
        IsMultiple-pred (2 ^ len64 d) (middle start last p)
            (middle-IsMultiple (len64 d) left_digits.0),
        omega arith,
      ),
    )

    -- The result of the call, with the bit operations done.
    computes :
        (end : ℕ)
        → end ≡ last + 1
        → start < last
        → subtrees_for_interval start end
          ≡ ok (record {
            start1 = middle start last p - 2 ^ len64 d;
            end1 = middle start last p;
            start2 = middle start last p;
            end2 = end;
          })
    unfolding subtrees_for_interval
    computes end e less =
        let order : ltb end start ≡ false = le→ltb end start (omega arith) in
        let long : leb (end - start) 1 ≡ false = ground arith in
        let last_lem : end - 1 ≡ last = omega arith in
        rw (order, long, last_lem, split_digit xor_bound, mid_lem, flipped, ← distance, start1_lem)
          refl

    covers_long :
        (end : ℕ)
        → end ≡ last + 1
        → start < last
        → (c : Covering) × (subtrees_for_interval start end ≡ ok c) × IsCovering start end c
    covers_long end e less =
        let lo = p.a_low in
        let hi = p.a_high in
        let l = p.b_low in
        let b = p.b_high in
        let (k, high, double) = left_digits in
        (
          _,
          computes end e less,
          record {
            left = left_IsSubtree;
            right = (omega arith, (p.j, (2 * p.q + 1, refl), omega arith));
            adjacent = refl;
            from = omega arith;
            inside = (omega arith, omega arith);
            to = refl;
            tight = omega arith;
          },
        )

short_covers :
    (start end : ℕ)
    → start ≤ end
    → end ≤ start + 1
    → subtrees_for_interval start end
      ≡ ok (record { start1 = start; end1 = end; start2 = end; end2 = end })
unfolding subtrees_for_interval
short_covers start end order short = ground arith

-- `SubtreesForInterval` covers every interval whose ends are in order and below 2 ^ 64 with two
-- subtrees that the draft allows: they meet inside the interval, the second ends with it, and the
-- first begins at or before it and is at most twice as long as its part of it.
pub subtrees_for_interval-IsCovering :
    (start end : ℕ)
    → start ≤ end
    → end < 2 ^ 64
    → (c : Covering) × (subtrees_for_interval start end ≡ ok c) × IsCovering start end c
subtrees_for_interval-IsCovering start end order bound = elim (dec_lt (start + 1) end) [
  | yes long ↦
      let last = end - 1 in
      covers_long start last (omega arith) (parts 64 start last (omega arith) (omega arith)) _ refl
        end (omega arith) (omega arith)
  | no short ↦ (
    _,
    short_covers start end order (omega arith),
    short_IsCovering start end order (omega arith),
  )
]
