-- ===== src/Log/Inclusion/Sound.antt =====
-- `EvaluateSubtreeInclusionProof` of demo/log.go against the tree that its result is the hash of.
use merkle_tree_certs.Prelude.{ℕ, ◌≤◌, ◌<◌, ◌^◌, ◌≡◌, sym, ap, ◌∙◌, ◌⊎◌, inl, inr, length, ok}
use merkle_tree_certs.Log.Hash.{Bytes, HashValue, Digest, hash_size}
use merkle_tree_certs.Log.Tree.{MerkleTree}
use merkle_tree_certs.Log.Mth.{IsTreeOf}
use merkle_tree_certs.Log.Subtree.{subtree_hash}
use merkle_tree_certs.Log.Subtree.Valid.{IsSubtree}
use merkle_tree_certs.Log.Inclusion.{subtree_inclusion_proof, evaluate_subtree_inclusion_proof}
use merkle_tree_certs.Log.Inclusion.Correct.{evaluate-subtree_inclusion_proof}
use merkle_tree_certs.Log.Inclusion.Binding.{Collision, evaluate_subtree_inclusion_proof-binding}

module _ (sha256 : Digest) (leaf : ℕ → HashValue) (mt : MerkleTree) (n : ℕ)
    (tree : IsTreeOf sha256 leaf mt n) (leaves : (i : ℕ) → length (leaf i) ≡ hash_size) where
  -- For a tree of fewer than 2 ^ 64 entries that keeps what `MerkleTree` promises: where
  -- `EvaluateSubtreeInclusionProof` takes an entry hash of the digest's length, at an index of a
  -- subtree inside the tree, to the hash that `SubtreeHash` returns for that subtree, the entry hash
  -- is the tree's leaf hash at that index and the proof is the one `SubtreeInclusionProof` makes, or
  -- there is a collision of the digest.
  pub evaluate_subtree_inclusion_proof_sound :
      (index start end : ℕ) (r h : HashValue) (proof : Bytes)
      → IsSubtree start end
      → start ≤ index
      → index < end
      → end ≤ n
      → n < 2 ^ 64
      → length r ≡ hash_size
      → subtree_hash sha256 mt start end ≡ ok h
      → evaluate_subtree_inclusion_proof sha256 index start end r proof ≡ ok h
      → ((r ≡ leaf index) × (subtree_inclusion_proof sha256 mt index start end ≡ ok proof))
        ⊎ Collision sha256
  evaluate_subtree_inclusion_proof_sound index start end r h proof sub lo hi within bound size eh
        e =
      let (made, h', generates, eh', evaluates, _) =
        evaluate-subtree_inclusion_proof sha256 leaf mt n tree leaves index start end sub lo hi
          within bound in
      let same : h' ≡ h = cc (eh, eh') in
      elim (evaluate_subtree_inclusion_proof-binding sha256 index start end r (leaf index) h proof
        made size (leaves index) e (evaluates ∙ ap ok same)) [
          | inl (hashes, proofs) ↦ inl (hashes, generates ∙ ap ok (sym proofs))
          | inr collision ↦ inr collision
        ]
