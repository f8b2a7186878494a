-- ===== src/Log/Inclusion.antt =====
-- `SubtreeInclusionProof` and `EvaluateSubtreeInclusionProof` of demo/log.go.
pub mod Evaluate
pub mod Neighbors
pub mod Binding
pub mod RoundTrip
pub mod Correct
pub mod Sound
use merkle_tree_certs.Prelude.{ℕ, zero, suc, ◌+◌, ◌-◌, ◌*◌, ◌/◌, ◌%◌, ◌^◌, bit_xor}
use merkle_tree_certs.Prelude.{ltb, leb, ◌==◌, if◌then◌else◌, not, ◌&&◌, ◌||◌}
use merkle_tree_certs.Prelude.{[], ◌∷◌, ◌++◌, length, take, drop}
use merkle_tree_certs.Prelude.{Outcome, ok, err, panic, stuck, ◌>>=◌, ◌>>◌, check, must}
use merkle_tree_certs.Log.Hash.{Bytes, HashValue, Digest, hash_size, hash_node}
use merkle_tree_certs.Log.Tree.{MerkleTree}
use merkle_tree_certs.Log.Subtree.{LogError, is_valid_subtree, subtree_hash}

-- `panic(err)` in place of returning the error.
abbrev pub or_panic {ℓ κ} : {E : Type ℓ} {A : Type κ} → Outcome E A → Outcome E A
or_panic (ok a) = ok a
or_panic (err e) = panic
or_panic panic = panic
or_panic stuck = stuck

module _ (sha256 : Digest) (mt : MerkleTree) where
  -- The body of the loop: the neighbour's hash is appended where there is a neighbour.
  unfoldable pub add_neighbor : ℕ → ℕ → ℕ → ℕ → Bytes → Outcome LogError Bytes
  add_neighbor end level index last proof =
      let neighbor = bit_xor index 1 in
      if ltb neighbor last
      then (do h ← must (mt.full_subtree_hash_by_level level neighbor); ok (proof ++ h))
      else if neighbor == last
      then (do
        h ← or_panic (subtree_hash sha256 mt (last * 2 ^ level % 2 ^ 64) end)
        ok (proof ++ h))
      else ok proof

  -- `for start < last`, with 64 rounds and the last test.
  unfoldable pub inclusion_loop : ℕ → ℕ → ℕ → ℕ → ℕ → ℕ → Bytes → Outcome LogError Bytes
  inclusion_loop zero end level start index last proof = stuck
  inclusion_loop (suc fuel) end level start index last proof =
      if ltb start last
      then (do
        proof' ← add_neighbor end level index last proof
        inclusion_loop fuel end (level + 1) (start / 2) (index / 2) (last / 2) proof')
      else ok proof

  unfoldable pub subtree_inclusion_proof : ℕ → ℕ → ℕ → Outcome LogError Bytes
  subtree_inclusion_proof index start end = do
    check (is_valid_subtree start end) LogError.invalid_subtree
    check (not (ltb mt.size end)) LogError.exceeds_tree
    check (leb start index && ltb index end) LogError.index_outside
    inclusion_loop 65 end 0 start index (end - 1) []

-- `for fn&1 == 0`. On `fn` zero Go would not leave this loop; at most 63 digits can be zero else.
unfoldable pub skip_zeros : ℕ → ℕ → ℕ → Outcome LogError (ℕ × ℕ)
skip_zeros zero fn sn = stuck
skip_zeros (suc fuel) fn sn =
    let rest = skip_zeros fuel (fn / 2) (sn / 2) in if fn % 2 == 0 then rest else ok (fn, sn)

module _ (sha256 : Digest) where
  -- `for len(proof) != 0`. Each round takes `hash_size` bytes.
  unfoldable pub evaluate_loop : ℕ → ℕ → ℕ → HashValue → Bytes → Outcome LogError HashValue
  evaluate_loop fuel fn sn r [] = if sn == 0 then ok r else err LogError.proof_too_short
  evaluate_loop zero fn sn r (b ∷ bs) = stuck
  evaluate_loop (suc fuel) fn sn r (b ∷ bs) = do
    check (not (ltb (length (b ∷ bs)) hash_size)) LogError.truncated_hash
    let p = take hash_size (b ∷ bs)
    let rest = drop hash_size (b ∷ bs)
    check (not (sn == 0)) LogError.proof_too_long
    let on_left = evaluate_loop fuel (fn / 2) (sn / 2) (hash_node sha256 r p) rest
    if fn % 2 == 1 || fn == sn
        then (do
          (fn', sn') ← skip_zeros 64 fn sn
          evaluate_loop fuel (fn' / 2) (sn' / 2) (hash_node sha256 p r) rest)
        else on_left

  unfoldable pub evaluate_subtree_inclusion_proof :
      ℕ → ℕ → ℕ → HashValue → Bytes → Outcome LogError HashValue
  evaluate_subtree_inclusion_proof index start end entry_hash proof = do
    check (is_valid_subtree start end) LogError.invalid_subtree
    check (leb start index && ltb index end) LogError.index_outside
    evaluate_loop (length proof) (index - start) (end - start - 1) entry_hash proof
