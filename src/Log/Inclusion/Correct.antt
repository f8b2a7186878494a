-- ===== src/Log/Inclusion/Correct.antt =====
-- `SubtreeInclusionProof` of demo/log.go, evaluated by `EvaluateSubtreeInclusionProof`.
use native.Mathlib.Decide.{ℕ_discrete}
use merkle_tree_certs.Prelude.{ℕ, ◌+◌, ◌-◌, ◌*◌, ◌^◌, ◌≤◌, ◌<◌}
use merkle_tree_certs.Prelude.{◌≡◌, refl, ap, ◌∙◌, arith, ◌⊎◌, inl, inr, [], length}
use merkle_tree_certs.Prelude.{true, ok}
use merkle_tree_certs.Bits.{len64}
use merkle_tree_certs.Log.Hash.{Bytes, HashValue, Digest, hash_size}
use merkle_tree_certs.Log.Tree.{MerkleTree}
use merkle_tree_certs.Log.Mth.{Mth, Mth-ends, Mth-unique, IsTreeOf}
use merkle_tree_certs.Log.Subtree.{is_valid_subtree, subtree_hash}
use merkle_tree_certs.Log.Subtree.Valid.{IsSubtree, is_valid_subtree_iff, subtree_digits}
use merkle_tree_certs.Log.Subtree.Refines.{subtree_hash-Mth}
use merkle_tree_certs.Log.Inclusion.{
  inclusion_loop, subtree_inclusion_proof, evaluate_loop, evaluate_subtree_inclusion_proof,
}
use merkle_tree_certs.Log.Inclusion.RoundTrip.{meets}

module _ (sha256 : Digest) (leaf : ℕ → HashValue) (mt : MerkleTree) (n : ℕ)
    (tree : IsTreeOf sha256 leaf mt n) (leaves : (i : ℕ) → length (leaf i) ≡ hash_size) where
  generate_checks :
      (index start end : ℕ)
      → is_valid_subtree start end ≡ true
      → start ≤ index
      → index < end
      → end ≤ n
      → subtree_inclusion_proof sha256 mt index start end
        ≡ inclusion_loop sha256 mt 65 end 0 start index (end - 1) []
  unfolding subtree_inclusion_proof
  generate_checks index start end valid lo hi within = ground (arith, tree.size)

  evaluate_checks :
      (index start end : ℕ) (r : HashValue) (proof : Bytes)
      → is_valid_subtree start end ≡ true
      → start ≤ index
      → index < end
      → evaluate_subtree_inclusion_proof sha256 index start end r proof
        ≡ evaluate_loop sha256 (length proof) (index - start) (end - 1 - start) r proof
  unfolding evaluate_subtree_inclusion_proof
  evaluate_checks index start end r proof valid lo hi =
      let swap : end - start - 1 ≡ end - 1 - start = omega arith in ground (arith, swap)

  -- The leaf of an entry, as a node of the lowest level.
  leaf_node :
      (index end : ℕ)
      → index < end
      → (hi : ℕ) × Mth sha256 leaf (index * 2 ^ 0) hi (leaf index)
        × (((index ≡ end - 1) × (hi ≡ end)) ⊎ ((index < end - 1) × (hi ≡ (index + 1) * 2 ^ 0)))
  leaf_node index end h = elim (ℕ_discrete index (end - 1)) [
    | yes edge ↦ (
      end,
      Mth-ends sha256 leaf (omega arith) (omega arith)
          (Mth.single {lo = index} {hi = index + 1} refl),
      inl (edge, omega arith),
    )
    | no inner ↦ (
      (index + 1) * 2 ^ 0,
      Mth-ends sha256 leaf (omega arith) (omega arith)
          (Mth.single {lo = index} {hi = index + 1} refl),
      inr (omega arith, refl),
    )
  ]

  -- For a tree of fewer than 2 ^ 64 entries that keeps what `MerkleTree` promises, and an entry of a
  -- subtree inside it, `SubtreeInclusionProof` returns a proof with which
  -- `EvaluateSubtreeInclusionProof` turns the entry's leaf hash, of the digest's length, into the
  -- hash that `SubtreeHash` returns, and the proof has at most one hash for each binary digit of the
  -- subtree's size less one.
  pub evaluate-subtree_inclusion_proof :
      (index start end : ℕ)
      → IsSubtree start end
      → start ≤ index
      → index < end
      → end ≤ n
      → n < 2 ^ 64
      → (proof : Bytes) × (h : HashValue) × (subtree_inclusion_proof sha256 mt index start end
          ≡ ok proof)
        × (subtree_hash sha256 mt start end ≡ ok h)
        × (evaluate_subtree_inclusion_proof sha256 index start end (leaf index) proof ≡ ok h)
        × (length proof ≤ hash_size * len64 (end - start - 1))
  evaluate-subtree_inclusion_proof index start end sub lo hi within bound =
      let (small, (m, em), size) = subtree_digits start end sub (omega arith) (omega arith) in
      let valid = (is_valid_subtree_iff start end (omega arith)).1 sub in
      let met =
        meets sha256 leaf mt n end tree leaves within bound (len64 (end - start - 1)) 65 0 m start
          index (end - 1) (leaf index) [] (omega arith) em lo (omega arith) (omega arith)
          (omega arith) (omega arith) (leaf_node index end hi) in
      let (h, eh, mh) = subtree_hash-Mth sha256 leaf mt n tree start end sub within bound in
      (
        met.tail,
        h,
        generate_checks index start end valid lo hi within ∙ met.generates,
        eh,
        evaluate_checks index start end (leaf index) met.tail valid lo hi
            ∙ met.evaluates (length met.tail) (omega arith)
            ∙ ap ok
                (Mth-unique sha256 leaf (Mth-ends sha256 leaf (omega arith) refl met.is_root) mh),
        met.short,
      )
