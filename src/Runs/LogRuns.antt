-- ===== src/Runs/LogRuns.antt =====
-- Runs of demo/log.go, and its theorems at concrete inputs. The digest of the runs is a toy with
-- the length of a SHA-256 digest.
use merkle_tree_certs.Prelude.{◌≤◌, ◌<◌, ◌⊎◌, ◌↔◌, arith, length, get_or, ltb→lt}
use merkle_tree_certs.Prelude.{ℕ, zero, suc, ◌+◌, ◌-◌, ◌*◌, ◌%◌, ◌^◌, ◌≡◌, refl, true, false}
use merkle_tree_certs.Prelude.{List, [], ◌∷◌, ◌++◌, replicate, length-replicate, ok, ◌>>=◌}
use merkle_tree_certs.Bits.{len64, trailing_zeros64}
use merkle_tree_certs.Log.Hash.{Bytes, HashValue, Digest, hash_leaf, hash_node, length-hash_leaf}
use merkle_tree_certs.Log.Mth.{Mth, IsTreeOf}
use merkle_tree_certs.Log.Tree.Levels.{leaf_of, new_static_merkle_tree-IsTreeOf}
use merkle_tree_certs.Log.Subtree.Valid.{IsSubtree, is_valid_subtree_iff}
use merkle_tree_certs.Log.Subtree.Refines.{subtree_hash-Mth}
use merkle_tree_certs.Log.Inclusion.Correct.{evaluate-subtree_inclusion_proof}
use merkle_tree_certs.Log.Inclusion.Binding.{Collision, evaluate_subtree_inclusion_proof-binding}
use merkle_tree_certs.Log.Inclusion.Sound.{evaluate_subtree_inclusion_proof_sound}
use merkle_tree_certs.Log.Consistency.Subproof.{Subproof}
use merkle_tree_certs.Log.Consistency.Refines.{subtree_consistency_proof-Subproof}
use merkle_tree_certs.Log.Interval.Covers.{IsCovering, subtrees_for_interval-IsCovering}
use merkle_tree_certs.Log.Total.{
  ReturnsWhen, subtree_hash-ReturnsWhen, subtree_inclusion_proof-ReturnsWhen,
  subtree_consistency_proof-ReturnsWhen,
}
use merkle_tree_certs.Log.Tree.{
  MerkleTree, static_tree, static_hash_by_level, new_static_merkle_tree, next_level, levels_from,
}
use merkle_tree_certs.Log.Subtree.{is_valid_subtree, subtree_hash, subtree_loop, join_left}
use merkle_tree_certs.Log.Inclusion.{
  subtree_inclusion_proof, inclusion_loop, add_neighbor, evaluate_subtree_inclusion_proof,
  evaluate_loop, skip_zeros,
}
use merkle_tree_certs.Log.Interval.{Covering, subtrees_for_interval}
use merkle_tree_certs.Log.Consistency.{subtree_consistency_proof}

abbrev pub mix : ℕ → List ℕ → ℕ
mix acc [] = acc
mix acc (b ∷ bs) = mix ((acc * 31 + b + 1) % 251) bs

abbrev pub toy : Digest
toy = record { sum = λ b. replicate 32 (mix 7 b); length-sum = λ b. length-replicate 32 (mix 7 b) }

abbrev pub entries : ℕ → List Bytes
entries zero = []
entries (suc n) = (n ∷ []) ∷ entries n

abbrev pub tree : MerkleTree
tree = static_tree (new_static_merkle_tree toy (entries 13))

valid_subtrees : is_valid_subtree 8 13 ≡ true
unfolding is_valid_subtree len64
valid_subtrees = refl

invalid_subtrees : is_valid_subtree 4 9 ≡ false
unfolding is_valid_subtree len64
invalid_subtrees = refl

huge_subtree : is_valid_subtree 1 (2 ^ 64 - 1) ≡ false
unfolding is_valid_subtree len64
huge_subtree = refl

interval_run :
    subtrees_for_interval 5 13 ≡ ok (record { start1 = 4; end1 = 8; start2 = 8; end2 = 13 })
unfolding subtrees_for_interval len64
interval_run = refl

round_trip_run :
    (do
      proof ← subtree_inclusion_proof toy tree 10 8 13
      evaluate_subtree_inclusion_proof toy 10 8 13 (hash_leaf toy (2 ∷ [])) proof)
    ≡ subtree_hash toy tree 8 13
unfolding subtree_inclusion_proof inclusion_loop add_neighbor evaluate_subtree_inclusion_proof
    evaluate_loop skip_zeros subtree_hash subtree_loop join_left is_valid_subtree len64
    trailing_zeros64 new_static_merkle_tree next_level levels_from static_hash_by_level hash_leaf
    hash_node
round_trip_run = refl

-- The tree of the runs.
pub tree_lem : IsTreeOf toy (leaf_of toy (entries 13)) tree 13
tree_lem =
    new_static_merkle_tree-IsTreeOf toy (entries 13) (ltb→lt (length (entries 13)) (2 ^ 63) refl)

pub leaves_lem : (i : ℕ) → length (leaf_of toy (entries 13) i) ≡ 32
leaves_lem i = length-hash_leaf toy (get_or (entries 13) i [])

pub aligned : IsSubtree 8 13
aligned = (omega arith, (3, (1, refl), omega arith))

new_static_merkle_tree-IsTreeOf_example : IsTreeOf toy (leaf_of toy (entries 13)) tree 13
new_static_merkle_tree-IsTreeOf_example =
    new_static_merkle_tree-IsTreeOf toy (entries 13) (ltb→lt (length (entries 13)) (2 ^ 63) refl)

is_valid_subtree_iff_example : (is_valid_subtree 8 13 ≡ true) ↔ IsSubtree 8 13
is_valid_subtree_iff_example = is_valid_subtree_iff 8 13 (omega arith)

subtree_hash-Mth_example :
    (h : HashValue) × (subtree_hash toy tree 8 13 ≡ ok h)
    × Mth toy (leaf_of toy (entries 13)) 8 13 h
subtree_hash-Mth_example =
    subtree_hash-Mth toy (leaf_of toy (entries 13)) tree 13 tree_lem 8 13 aligned (omega arith)
      (omega arith)

evaluate-subtree_inclusion_proof_example :
    (proof : Bytes) × (h : HashValue) × (subtree_inclusion_proof toy tree 10 8 13 ≡ ok proof)
    × (subtree_hash toy tree 8 13 ≡ ok h)
    × (evaluate_subtree_inclusion_proof toy 10 8 13 (leaf_of toy (entries 13) 10) proof ≡ ok h)
    × (length proof ≤ 32 * len64 4)
evaluate-subtree_inclusion_proof_example =
    evaluate-subtree_inclusion_proof toy (leaf_of toy (entries 13)) tree 13 tree_lem leaves_lem 10 8
      13 aligned (omega arith) (omega arith) (omega arith) (omega arith)

-- Hashes of a subtree of three entries, with the proof for its second entry.
abbrev hash_a : HashValue
hash_a = replicate 32 1

abbrev root_a : HashValue
root_a = hash_node toy (hash_node toy hash_a hash_a) hash_a

evaluates_a : evaluate_subtree_inclusion_proof toy 1 0 3 hash_a (hash_a ++ hash_a) ≡ ok root_a
unfolding evaluate_subtree_inclusion_proof evaluate_loop skip_zeros is_valid_subtree len64 hash_node
evaluates_a = refl

evaluate_subtree_inclusion_proof-binding_example :
    ((hash_a ≡ hash_a) × (hash_a ++ hash_a ≡ hash_a ++ hash_a)) ⊎ Collision toy
evaluate_subtree_inclusion_proof-binding_example =
    evaluate_subtree_inclusion_proof-binding toy 1 0 3 hash_a hash_a root_a (hash_a ++ hash_a)
      (hash_a ++ hash_a) refl refl evaluates_a evaluates_a

-- The tree of three entries.
abbrev small : MerkleTree
small = static_tree (new_static_merkle_tree toy (entries 3))

abbrev small_leaf : ℕ → HashValue
small_leaf = leaf_of toy (entries 3)

small_lem : IsTreeOf toy small_leaf small 3
small_lem =
    new_static_merkle_tree-IsTreeOf toy (entries 3) (ltb→lt (length (entries 3)) (2 ^ 63) refl)

abbrev small_proof : Bytes
small_proof = hash_leaf toy (2 ∷ []) ++ hash_leaf toy (0 ∷ [])

abbrev small_root : HashValue
small_root =
    hash_node toy (hash_node toy (hash_leaf toy (2 ∷ [])) (hash_leaf toy (1 ∷ [])))
      (hash_leaf toy (0 ∷ []))

small_hashes : subtree_hash toy small 0 3 ≡ ok small_root
unfolding subtree_hash subtree_loop join_left is_valid_subtree len64 trailing_zeros64
    new_static_merkle_tree next_level levels_from static_hash_by_level hash_leaf hash_node
small_hashes = refl

small_evaluates :
    evaluate_subtree_inclusion_proof toy 1 0 3 (hash_leaf toy (1 ∷ [])) small_proof ≡ ok small_root
unfolding evaluate_subtree_inclusion_proof evaluate_loop skip_zeros is_valid_subtree len64 hash_leaf
    hash_node
small_evaluates = refl

evaluate_subtree_inclusion_proof_sound_example :
    ((hash_leaf toy (1 ∷ []) ≡ small_leaf 1)
      × (subtree_inclusion_proof toy small 1 0 3 ≡ ok small_proof))
    ⊎ Collision toy
evaluate_subtree_inclusion_proof_sound_example =
    evaluate_subtree_inclusion_proof_sound toy small_leaf small 3 small_lem
      (λ i. length-hash_leaf toy (get_or (entries 3) i [])) 1 0 3 (hash_leaf toy (1 ∷ []))
      small_root small_proof (omega arith, (2, (0, refl), omega arith)) (omega arith) (omega arith)
      (omega arith) (omega arith) (length-hash_leaf toy (1 ∷ [])) small_hashes small_evaluates

subtree_consistency_proof-Subproof_example :
    (proof : Bytes) × (subtree_consistency_proof toy tree 4 7 13 ≡ ok proof)
    × Subproof toy (leaf_of toy (entries 13)) 4 7 0 13 true proof
subtree_consistency_proof-Subproof_example =
    subtree_consistency_proof-Subproof toy (leaf_of toy (entries 13)) tree 13 tree_lem (omega arith)
      4 7 13 (omega arith, (2, (1, refl), omega arith)) (omega arith) (omega arith) (omega arith)

subtrees_for_interval-IsCovering_example :
    (c : Covering) × (subtrees_for_interval 5 13 ≡ ok c) × IsCovering 5 13 c
subtrees_for_interval-IsCovering_example =
    subtrees_for_interval-IsCovering 5 13 (omega arith) (omega arith)

subtree_hash-ReturnsWhen_example :
    ReturnsWhen (IsSubtree 4 9 × (9 ≤ 13)) (subtree_hash toy tree 4 9)
subtree_hash-ReturnsWhen_example =
    subtree_hash-ReturnsWhen toy (leaf_of toy (entries 13)) tree 13 tree_lem leaves_lem
      (omega arith) 4 9 (omega arith)

subtree_inclusion_proof-ReturnsWhen_example :
    ReturnsWhen
      (IsSubtree 8 13 × (13 ≤ 13) × (8 ≤ 13) × (13 < 13))
      (subtree_inclusion_proof toy tree 13 8 13)
subtree_inclusion_proof-ReturnsWhen_example =
    subtree_inclusion_proof-ReturnsWhen toy (leaf_of toy (entries 13)) tree 13 tree_lem leaves_lem
      (omega arith) 13 8 13 (omega arith)

subtree_consistency_proof-ReturnsWhen_example :
    ReturnsWhen
      (IsSubtree 8 13 × (13 ≤ 14) × (14 ≤ 13))
      (subtree_consistency_proof toy tree 8 13 14)
subtree_consistency_proof-ReturnsWhen_example =
    subtree_consistency_proof-ReturnsWhen toy (leaf_of toy (entries 13)) tree 13 tree_lem leaves_lem
      (omega arith) 8 13 14 (omega arith)
