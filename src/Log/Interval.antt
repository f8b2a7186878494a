-- ===== src/Log/Interval.antt =====
-- `SubtreesForInterval` of demo/log.go.
pub mod Covers
use merkle_tree_certs.Prelude.{ℕ, ◌-◌, ◌^◌, bit_and, bit_xor, ltb, leb, if◌then◌else◌, not}
use merkle_tree_certs.Prelude.{Outcome, ok, ◌>>◌, check}
use merkle_tree_certs.Bits.{len64, complement64}
use merkle_tree_certs.Log.Subtree.{LogError}

-- The named results.
pub record Covering : Type 0 where
  pub start1 : ℕ
  pub end1 : ℕ
  pub start2 : ℕ
  pub end2 : ℕ

-- With two elements or more `start` and `last` differ, so `bits.Len64(start^last)` is not zero.
unfoldable pub subtrees_for_interval : ℕ → ℕ → Outcome LogError Covering
subtrees_for_interval start end = do
  check (not (ltb end start)) LogError.invalid_interval
  if leb (end - start) 1
      then ok (record { start1 = start; end1 = end; start2 = end; end2 = end })
      else let last = end - 1 in
        let split = len64 (bit_xor start last) - 1 in
        let mask = 2 ^ split - 1 in
        let mid = bit_and last (complement64 mask) in
        let left_split = len64 (bit_and (complement64 start) mask) in
        ok (record {
          start1 = bit_and start (complement64 (2 ^ left_split - 1));
          end1 = mid;
          start2 = mid;
          end2 = end;
        })
