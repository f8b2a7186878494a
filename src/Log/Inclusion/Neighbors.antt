-- ===== src/Log/Inclusion/Neighbors.antt =====
-- What a round of the loop of `SubtreeInclusionProof` appends, and the node that it completes.
use native.Mathlib.Nat.{mod-eq_of_lt}
use native.Mathlib.Decide.{ℕ_discrete}
use merkle_tree_certs.Prelude.{ℕ, ◌+◌, ◌-◌, ◌*◌, ◌/◌, ◌%◌, ◌^◌, ◌≤◌, ◌<◌}
use merkle_tree_certs.Prelude.{◌≡◌, refl, sym, ap, arith, inl, inr, ◌⊎◌, bit_xor, some}
use merkle_tree_certs.Prelude.{false, ◌==◌, ==_iff, le→ltb, lt→ltb}
use merkle_tree_certs.Prelude.{◌++◌, length}
use merkle_tree_certs.Prelude.{ok}
use merkle_tree_certs.Bits.Digits.{bit_xor-one}
use merkle_tree_certs.Bits.Powers.{
  two-pow-pos, mul_mono, two-pow-next, shift-even, shift-odd, shift-odd_pred, parity,
}
use merkle_tree_certs.Log.Hash.{Bytes, HashValue, Digest, hash_size, hash_node}
use merkle_tree_certs.Log.Tree.{MerkleTree}
use merkle_tree_certs.Log.Mth.{Mth, Mth-ends, length-Mth, IsTreeOf}
use merkle_tree_certs.Log.Subtree.{subtree_hash}
use merkle_tree_certs.Log.Subtree.Refines.{subtree_hash-Mth}
use merkle_tree_certs.Log.Inclusion.{add_neighbor}

module _ (sha256 : Digest) (leaf : ℕ → HashValue) (mt : MerkleTree) (n end : ℕ)
    (tree : IsTreeOf sha256 leaf mt n) (leaves : (i : ℕ) → length (leaf i) ≡ hash_size)
    (within : end ≤ n) (bound : n < 2 ^ 64) where
  -- `last` is the last node of its level below `end`.
  abbrev pub IsLast : ℕ → ℕ → Type 0
  IsLast level last = (last * 2 ^ level < end) × (end ≤ (last + 1) * 2 ^ level)

  -- `r` is the hash of node `index`, which on the right edge stops at `end`.
  abbrev pub IsNode : ℕ → ℕ → ℕ → HashValue → Type 0
  IsNode level last index r =
      (hi : ℕ) × Mth sha256 leaf (index * 2 ^ level) hi r
      × (((index ≡ last) × (hi ≡ end)) ⊎ ((index < last) × (hi ≡ (index + 1) * 2 ^ level)))

  pub IsLast-next : (level last : ℕ) → IsLast level last → IsLast (level + 1) (last / 2)
  IsLast-next level last (lo, hi) = elim (parity last) [
    | inl even ↦ omega (arith, shift-even last level even, two-pow-next level, two-pow-pos level)
    | inr odd ↦ omega (arith, shift-odd last level odd, two-pow-next level)
  ]

  -- The neighbour on the right edge: `SubtreeHash(mt, last<<level, end)`.
  edge_hash :
      (level last : ℕ)
      → IsLast level last
      → (h : HashValue) × (subtree_hash sha256 mt (last * 2 ^ level % 2 ^ 64) end ≡ ok h)
        × Mth sha256 leaf (last * 2 ^ level) end h
  edge_hash level last (lo, hi) =
      rw (mod-eq_of_lt {n = last * 2 ^ level} {m = 2 ^ 64} (omega arith)) (
        subtree_hash-Mth sha256 leaf mt n tree (last * 2 ^ level) end
          (omega arith, (level, (last, refl), omega arith)) within bound)

  -- What one round of the generator's loop appends, and the node that the appended hash completes.
  pub neighbor_left :
      (level last index : ℕ) (r : HashValue) (proof : Bytes)
      → IsLast level last
      → IsNode level last index r
      → index ≤ last
      → index % 2 ≡ 1
      → (h : HashValue) × (add_neighbor sha256 mt end level index last proof ≡ ok (proof ++ h))
        × (length h ≡ hash_size)
        × IsNode (level + 1) (last / 2) (index / 2) (hash_node sha256 h r)
  neighbor_left level last index r proof here (hi, m, place) le odd =
      let (h, eh, mh) =
        tree.full level (index - 1)
          (omega (arith, back, here.0, mul_mono (2 ^ level) index last le)) in
      (
        h,
        added h eh,
        length-Mth sha256 leaf leaves mh,
        (
          hi,
          Mth.split level (shift-odd index level odd) (extent place).0
              (omega (arith, (extent place).1))
              (Mth-ends sha256 leaf (shift-odd_pred index level odd) back mh) m,
          up place,
        ),
      )
    where
      back : (index - 1 + 1) * 2 ^ level ≡ index * 2 ^ level
      back = ap (λ (t : ℕ). t * 2 ^ level) (omega arith)

      extent :
          ((index ≡ last) × (hi ≡ end)) ⊎ ((index < last) × (hi ≡ (index + 1) * 2 ^ level))
          → (index * 2 ^ level < hi) × (hi ≤ index * 2 ^ level + 2 ^ level)
      extent (inl (same, e)) =
          let p : index * 2 ^ level ≡ last * 2 ^ level = ap (λ t. t * 2 ^ level) same in
          omega (arith, here.0, here.1, p)
      extent (inr (less, e)) = omega (arith, two-pow-pos level)

      up :
          ((index ≡ last) × (hi ≡ end)) ⊎ ((index < last) × (hi ≡ (index + 1) * 2 ^ level))
          → ((index / 2 ≡ last / 2) × (hi ≡ end))
            ⊎ ((index / 2 < last / 2) × (hi ≡ (index / 2 + 1) * 2 ^ (level + 1)))
      up (inl (same, e)) = inl (ap (λ t. t / 2) same, e)
      up (inr (less, e)) =
          inr (omega arith, omega (arith, shift-odd index level odd, two-pow-next level))

      neighbor : bit_xor index 1 ≡ index - 1
      neighbor = omega (arith, bit_xor-one index)

      added :
          (h : HashValue)
          → mt.full_subtree_hash_by_level level (index - 1) ≡ some h
          → add_neighbor sha256 mt end level index last proof ≡ ok (proof ++ h)
      added h eh =
          unfold add_neighbor in rw (neighbor, lt→ltb (index - 1) last (omega arith), eh) refl

  pub neighbor_right :
      (level last index : ℕ) (r : HashValue) (proof : Bytes)
      → IsLast level last
      → IsNode level last index r
      → index < last
      → index % 2 ≡ 0
      → (h : HashValue) × (add_neighbor sha256 mt end level index last proof ≡ ok (proof ++ h))
        × (length h ≡ hash_size)
        × IsNode (level + 1) (last / 2) (index / 2) (hash_node sha256 r h)
  neighbor_right level last index r proof here (hi, m, inl (same, e)) less even =
      absurd (omega arith)
  neighbor_right level last index r proof here (hi, m, inr (_, e)) less even =
      elim (ℕ_discrete (index + 1) last) [
        | yes edge ↦
            let (h, eh, mh) = edge_hash level last here in
            let p : (index + 1) * 2 ^ level ≡ last * 2 ^ level = ap (λ t. t * 2 ^ level) edge in
            (
              h,
              on_edge h edge eh,
              length-Mth sha256 leaf leaves mh,
              (
                end,
                Mth.split level (omega (arith, shift-even index level even))
                    (omega (arith, here.0, p)) (omega (arith, here.1, p))
                    (Mth-ends sha256 leaf (shift-even index level even) e m)
                    (Mth-ends sha256 leaf (sym p) refl mh),
                inl (omega arith, refl),
              ),
            )
        | no inner ↦
            let (h, eh, mh) =
              tree.full level (index + 1)
                (omega (arith, here.0, mul_mono (2 ^ level) (index + 2) last (omega arith))) in
            (
              h,
              inside h (omega arith) eh,
              length-Mth sha256 leaf leaves mh,
              (
                (index + 1 + 1) * 2 ^ level,
                Mth.split level (omega (arith, shift-even index level even))
                    (omega (arith, two-pow-pos level)) (omega arith)
                    (Mth-ends sha256 leaf (shift-even index level even) e m) mh,
                inr (omega arith, omega (arith, shift-even index level even, two-pow-next level)),
              ),
            )
      ]
    where
      neighbor : bit_xor index 1 ≡ index + 1
      neighbor = omega (arith, bit_xor-one index)

      on_edge :
          (h : HashValue)
          → index + 1 ≡ last
          → subtree_hash sha256 mt (last * 2 ^ level % 2 ^ 64) end ≡ ok h
          → add_neighbor sha256 mt end level index last proof ≡ ok (proof ++ h)
      on_edge h edge eh =
          unfold add_neighbor in
          rw (neighbor, le→ltb (index + 1) last (omega arith), (==_iff (index + 1) last).1 edge, eh)
            refl

      inside :
          (h : HashValue)
          → index + 1 < last
          → mt.full_subtree_hash_by_level level (index + 1) ≡ some h
          → add_neighbor sha256 mt end level index last proof ≡ ok (proof ++ h)
      inside h l eh = unfold add_neighbor in rw (neighbor, lt→ltb (index + 1) last l, eh) refl

  pub neighbor_none :
      (level last index : ℕ) (r : HashValue) (proof : Bytes)
      → IsNode level last index r
      → index ≡ last
      → index % 2 ≡ 0
      → (add_neighbor sha256 mt end level index last proof ≡ ok proof)
        × IsNode (level + 1) (last / 2) (index / 2) r
  neighbor_none level last index r proof (hi, m, inr (less, e)) same even = absurd (omega arith)
  neighbor_none level last index r proof (hi, m, inl (_, e)) same even = (
    nothing,
    (hi, Mth-ends sha256 leaf (shift-even index level even) refl m, inl (ap (λ t. t / 2) same, e)),
  )
    where
      neighbor : bit_xor index 1 ≡ index + 1
      neighbor = omega (arith, bit_xor-one index)

      differ : (index + 1 == last) ≡ false
      differ = ground arith

      nothing : add_neighbor sha256 mt end level index last proof ≡ ok proof
      nothing =
          unfold add_neighbor in rw (neighbor, le→ltb (index + 1) last (omega arith), differ) refl
