-- ===== src/Log/Consistency/Steps.antt =====
-- What a call of `subtreeSubproof` of demo/log.go does, case by case.
use merkle_tree_certs.Prelude.{ℕ, suc, ◌+◌, ◌-◌, ◌%◌, ◌^◌, ◌≤◌, ◌<◌, ◌≢◌}
use merkle_tree_certs.Prelude.{◌≡◌, arith, []}
use merkle_tree_certs.Prelude.{Bool, false, if◌then◌else◌, ok}
use merkle_tree_certs.Bits.{len64}
use merkle_tree_certs.Log.Hash.{Digest}
use merkle_tree_certs.Log.Tree.{MerkleTree}
use merkle_tree_certs.Log.Subtree.{subtree_hash}
use merkle_tree_certs.Log.Consistency.{split_size, add_sibling, subtree_subproof}

module _ (sha256 : Digest) (mt : MerkleTree) where
  -- What a call does, case by case.
  module _ (f start end lo hi k : ℕ) (known : Bool)
      (split : split_size (len64 ((hi + 2 ^ 64 - lo - 1) % 2 ^ 64)) ≡ ok (2 ^ k)) where
    pub goes_left :
        (start ≡ lo → end ≢ hi)
        → end ≤ lo + 2 ^ k
        → subtree_subproof sha256 mt (suc f) start end lo hi known
          ≡ add_sibling sha256 mt
              (subtree_subproof sha256 mt f start end lo (lo + 2 ^ k) known)
              (lo + 2 ^ k)
              hi
    unfolding subtree_subproof
    goes_left other left = ground arith

    pub goes_right :
        (start ≡ lo → end ≢ hi)
        → lo + 2 ^ k ≤ start
        → start < end
        → subtree_subproof sha256 mt (suc f) start end lo hi known
          ≡ add_sibling sha256 mt
              (subtree_subproof sha256 mt f start end (lo + 2 ^ k) hi known)
              lo
              (lo + 2 ^ k)
    unfolding subtree_subproof
    goes_right other right less = ground arith

    pub goes_across :
        (start ≡ lo → end ≢ hi)
        → start < lo + 2 ^ k
        → lo + 2 ^ k < end
        → subtree_subproof sha256 mt (suc f) start end lo hi known
          ≡ add_sibling sha256 mt
              (subtree_subproof sha256 mt f (lo + 2 ^ k) end (lo + 2 ^ k) hi false)
              lo
              (lo + 2 ^ k)
    unfolding subtree_subproof
    goes_across other before over = ground arith

  pub goes_whole :
      (f start end lo hi : ℕ) (known : Bool)
      → start ≡ lo
      → end ≡ hi
      → subtree_subproof sha256 mt (suc f) start end lo hi known
        ≡ (if known then ok [] else subtree_hash sha256 mt lo hi)
  unfolding subtree_subproof
  goes_whole f start end lo hi known p q = ground arith
