-- ===== src/Log/Subtree.antt =====
-- `IsValidSubtree` and `SubtreeHash` of demo/log.go. Sizes and indices are uint64 values: a
-- subtraction that may wrap and a shift to the left are taken modulo 2 ^ 64, `>> k` is division by
-- 2 ^ k, and `x & 1` is `x % 2`.
pub mod Valid
pub mod Start
pub mod Climb
pub mod Refines
use merkle_tree_certs.Prelude.{ℕ, zero, suc, ◌+◌, ◌-◌, ◌/◌, ◌%◌, ◌^◌, bit_and}
use merkle_tree_certs.Prelude.{Bool, true, false, ltb, ◌==◌, if◌then◌else◌}
use merkle_tree_certs.Prelude.{Outcome, ok, stuck, ◌>>=◌, ◌>>◌, check, must, not}
use merkle_tree_certs.Bits.{leading_zeros64, trailing_zeros64, complement64}
use merkle_tree_certs.Log.Hash.{HashValue, Digest, hash_empty, hash_node}
use merkle_tree_certs.Log.Tree.{MerkleTree}

-- The errors that the functions of log.go return, one for each message.
pub data LogError : Type 0 where
  invalid_subtree exceeds_tree index_outside invalid_interval : LogError
  truncated_hash proof_too_long proof_too_short : LogError

-- `1 << 64` is zero on a uint64, and `ceil - 1` then wraps to a mask of 64 ones.
unfoldable pub is_valid_subtree : ℕ → ℕ → Bool
is_valid_subtree start end =
    if ltb end start
    then false
    else if start == end
    then true
    else let ceil = 2 ^ (64 - leading_zeros64 (end - start - 1)) % 2 ^ 64 in
      bit_and start ((ceil + 2 ^ 64 - 1) % 2 ^ 64) == 0

module _ (sha256 : Digest) (mt : MerkleTree) where
  -- The body of the loop: the hash on the left joins in where `last` is odd.
  unfoldable pub join_left : ℕ → ℕ → HashValue → Outcome LogError HashValue
  join_left level last ret =
      if last % 2 == 1
      then (do
        h ← must (mt.full_subtree_hash_by_level level (last - 1))
        ok (hash_node sha256 h ret))
      else ok ret

  -- `for start < last`. Both halve in each round, so 64 rounds and the last test are enough.
  unfoldable pub subtree_loop : ℕ → ℕ → ℕ → ℕ → HashValue → Outcome LogError HashValue
  subtree_loop zero level start last ret = stuck
  subtree_loop (suc fuel) level start last ret =
      if ltb start last
      then (do
        ret' ← join_left level last ret
        subtree_loop fuel (level + 1) (start / 2) (last / 2) ret')
      else ok ret

  unfoldable pub subtree_hash : ℕ → ℕ → Outcome LogError HashValue
  subtree_hash start end = do
    check (is_valid_subtree start end) LogError.invalid_subtree
    check (not (ltb mt.size end)) LogError.exceeds_tree
    if start == end
        then ok (hash_empty sha256)
        else let last = end - 1 in
          let level = trailing_zeros64 ((complement64 last + 2 ^ 64 - start) % 2 ^ 64) in
          do
            ret ← must (mt.full_subtree_hash_by_level level (last / 2 ^ level))
            subtree_loop 65 level (start / 2 ^ level) (last / 2 ^ level) ret
