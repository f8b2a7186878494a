-- ===== src/Log/Consistency.antt =====
-- `SubtreeConsistencyProof` and `subtreeSubproof` of demo/log.go.
pub mod Subproof
pub mod Split
pub mod Steps
pub mod Refines
use merkle_tree_certs.Prelude.{ℕ, zero, suc, ◌+◌, ◌-◌, ◌%◌, ◌^◌}
use merkle_tree_certs.Prelude.{Bool, true, false, ltb, leb, ◌==◌, if◌then◌else◌, not, ◌&&◌}
use merkle_tree_certs.Prelude.{[], ◌++◌, Outcome, ok, panic, stuck, ◌>>=◌, ◌>>◌, check}
use merkle_tree_certs.Bits.{len64}
use merkle_tree_certs.Log.Hash.{Bytes, Digest}
use merkle_tree_certs.Log.Tree.{MerkleTree}
use merkle_tree_certs.Log.Subtree.{LogError, is_valid_subtree, subtree_hash}

-- A shift by a negative count panics: `bits.Len64(0) - 1` is -1.
abbrev pub split_size : ℕ → Outcome LogError ℕ
split_size zero = panic
split_size (suc k) = ok (2 ^ k)

module _ (sha256 : Digest) (mt : MerkleTree) where
  -- The tail that the three cases share.
  unfoldable pub add_sibling : Outcome LogError Bytes → ℕ → ℕ → Outcome LogError Bytes
  add_sibling rest sibling_start sibling_end = do
    proof ← rest
    h ← subtree_hash sha256 mt sibling_start sibling_end
    ok (proof ++ h)

  -- Every call has a window of at most half the rounded size, so 65 calls deep is enough.
  unfoldable pub subtree_subproof : ℕ → ℕ → ℕ → ℕ → ℕ → Bool → Outcome LogError Bytes
  subtree_subproof zero start end lo hi known = stuck
  subtree_subproof (suc fuel) start end lo hi known =
      if start == lo && end == hi
      then (if known then ok [] else subtree_hash sha256 mt lo hi)
      else do
        k ← split_size (len64 ((hi + 2 ^ 64 - lo - 1) % 2 ^ 64))
        let split = lo + k
        let in_left = subtree_subproof fuel start end lo split known
        let in_right = subtree_subproof fuel start end split hi known
        let across = subtree_subproof fuel split end split hi false
        if leb end split
            then add_sibling in_left split hi
            else (if leb split start
                then add_sibling in_right lo split
                else add_sibling across lo split)

  unfoldable pub subtree_consistency_proof : ℕ → ℕ → ℕ → Outcome LogError Bytes
  subtree_consistency_proof start end n = do
    check (is_valid_subtree start end) LogError.invalid_subtree
    check (not (ltb n end)) LogError.exceeds_tree
    check (not (ltb mt.size n)) LogError.exceeds_tree
    if start == end then ok [] else subtree_subproof 65 start end 0 n true
