-- ===== src/Log/Total.antt =====
-- The outcomes of `SubtreeHash`, `SubtreeInclusionProof` and `SubtreeConsistencyProof` of demo/log.go
-- on all arguments.
use merkle_tree_certs.Prelude.{ℕ, ◌^◌, ◌≤◌, ◌<◌}
use merkle_tree_certs.Prelude.{◌≡◌, arith, ◌⊎◌, inl, inr, [], length}
use merkle_tree_certs.Prelude.{Outcome, true, false, ok, err, Bool-cases}
use native.Mathlib.Decide.{dec_lt, ℕ_discrete}
use merkle_tree_certs.Log.Hash.{HashValue, Digest, hash_size}
use merkle_tree_certs.Log.Tree.{MerkleTree}
use merkle_tree_certs.Log.Mth.{IsTreeOf}
use merkle_tree_certs.Log.Subtree.{LogError, is_valid_subtree, subtree_hash}
use merkle_tree_certs.Log.Subtree.Valid.{IsSubtree, is_valid_subtree_iff}
use merkle_tree_certs.Log.Subtree.Refines.{subtree_hash-Mth}
use merkle_tree_certs.Log.Inclusion.{subtree_inclusion_proof}
use merkle_tree_certs.Log.Inclusion.Correct.{evaluate-subtree_inclusion_proof}
use merkle_tree_certs.Log.Consistency.{subtree_consistency_proof}
use merkle_tree_certs.Log.Consistency.Refines.{subtree_consistency_proof-Subproof}

-- A value exactly where the condition holds, and an error elsewhere.
abbrev pub ReturnsWhen {ℓ κ} : {A : Type ℓ} → Type κ → Outcome LogError A → Type (ℓ ⊔ κ)
ReturnsWhen {A} condition call =
    (condition × ((a : A) × (call ≡ ok a))) ⊎ ((¬ condition) × ((e : LogError) × (call ≡ err e)))

valid_cases :
    (start end : ℕ)
    → end < 2 ^ 64
    → (IsSubtree start end × (is_valid_subtree start end ≡ true))
      ⊎ ((¬ IsSubtree start end) × (is_valid_subtree start end ≡ false))
valid_cases start end word =
    let (forth, back) = is_valid_subtree_iff start end word in
    elim (Bool-cases (is_valid_subtree start end)) [
      | inl valid ↦ inl (forth valid, valid)
      | inr invalid ↦ inr (λ sub. cc (back sub, invalid), invalid)
    ]

module _ (sha256 : Digest) (leaf : ℕ → HashValue) (mt : MerkleTree) (n : ℕ)
    (tree : IsTreeOf sha256 leaf mt n) (leaves : (i : ℕ) → length (leaf i) ≡ hash_size)
    (bound : n < 2 ^ 64) where
  -- For a tree of fewer than 2 ^ 64 entries that keeps what `MerkleTree` promises, and ends below
  -- 2 ^ 64, `SubtreeHash` returns a hash for every subtree inside the tree and an error for every
  -- other range.
  pub subtree_hash-ReturnsWhen :
      (start end : ℕ)
      → end < 2 ^ 64
      → ReturnsWhen (IsSubtree start end × (end ≤ n)) (subtree_hash sha256 mt start end)
  unfolding subtree_hash
  subtree_hash-ReturnsWhen start end word = elim (valid_cases start end word) [
    | inr (other, invalid) ↦
        inr (λ c. absurd (other c.0), (LogError.invalid_subtree, ground (arith, tree.size)))
    | inl (sub, valid) ↦ elim (dec_lt n end) [
      | yes beyond ↦
          inr (λ c. omega (arith, c.1), (LogError.exceeds_tree, ground (arith, tree.size)))
      | no inside ↦
          let (h, eh, _) =
            subtree_hash-Mth sha256 leaf mt n tree start end sub (omega arith) bound in
          inl ((sub, omega arith), (h, eh))
    ]
  ]

  -- For a tree of fewer than 2 ^ 64 entries that keeps what `MerkleTree` promises, and ends below
  -- 2 ^ 64, `SubtreeInclusionProof` returns a proof for every entry of a subtree inside the tree
  -- and an error for every other range or index.
  pub subtree_inclusion_proof-ReturnsWhen :
      (index start end : ℕ)
      → end < 2 ^ 64
      → ReturnsWhen
          (IsSubtree start end × (end ≤ n) × (start ≤ index) × (index < end))
          (subtree_inclusion_proof sha256 mt index start end)
  unfolding subtree_inclusion_proof
  subtree_inclusion_proof-ReturnsWhen index start end word = elim (valid_cases start end word) [
    | inr (other, invalid) ↦
        inr (λ c. absurd (other c.0), (LogError.invalid_subtree, ground (arith, tree.size)))
    | inl (sub, valid) ↦ elim (dec_lt n end) [
      | yes beyond ↦
          inr (λ c. omega (arith, c.1), (LogError.exceeds_tree, ground (arith, tree.size)))
      | no inside ↦ elim (dec_lt index start) [
        | yes early ↦
            inr (λ c. omega (arith, c.2), (LogError.index_outside, ground (arith, tree.size)))
        | no from ↦ elim (dec_lt index end) [
          | no late ↦
              inr (λ c. omega (arith, c.3), (LogError.index_outside, ground (arith, tree.size)))
          | yes to ↦
              let (proof, _, e, _, _, _) =
                evaluate-subtree_inclusion_proof sha256 leaf mt n tree leaves index start end sub
                  (omega arith) to (omega arith) bound in
              inl ((sub, omega arith, omega arith, to), (proof, e))
        ]
      ]
    ]
  ]

  -- For a tree of fewer than 2 ^ 64 entries that keeps what `MerkleTree` promises, and ends below
  -- 2 ^ 64, `SubtreeConsistencyProof` returns a proof for every subtree of a prefix of the tree
  -- and an error for every other range or size.
  pub subtree_consistency_proof-ReturnsWhen :
      (start end size : ℕ)
      → end < 2 ^ 64
      → ReturnsWhen
          (IsSubtree start end × (end ≤ size) × (size ≤ n))
          (subtree_consistency_proof sha256 mt start end size)
  unfolding subtree_consistency_proof
  subtree_consistency_proof-ReturnsWhen start end size word = elim (valid_cases start end word) [
    | inr (other, invalid) ↦
        inr (λ c. absurd (other c.0), (LogError.invalid_subtree, ground (arith, tree.size)))
    | inl (sub, valid) ↦ elim (dec_lt size end) [
      | yes beyond ↦
          inr (λ c. omega (arith, c.1), (LogError.exceeds_tree, ground (arith, tree.size)))
      | no inside ↦ elim (dec_lt n size) [
        | yes large ↦
            inr (λ c. omega (arith, c.2), (LogError.exceeds_tree, ground (arith, tree.size)))
        | no room ↦ elim (ℕ_discrete start end) [
          | yes same ↦ inl ((sub, omega arith, omega arith), ([], ground (arith, tree.size)))
          | no other ↦
              let (proof, e, _) =
                subtree_consistency_proof-Subproof sha256 leaf mt n tree bound start end size sub
                  (omega (arith, sub.0)) (omega arith) (omega arith) in
              inl ((sub, omega arith, omega arith), (proof, e))
        ]
      ]
    ]
  ]
