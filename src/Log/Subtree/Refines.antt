-- ===== src/Log/Subtree/Refines.antt =====
-- `SubtreeHash` of demo/log.go against the Merkle Tree Hash.
use native.Mathlib.Nat.{mul_assoc}
use native.Mathlib.Decide.{ℕ_discrete}
use merkle_tree_certs.Prelude.{ℕ, zero, suc, ◌+◌, ◌-◌, ◌*◌, ◌/◌, ◌^◌, ◌≤◌, ◌<◌}
use merkle_tree_certs.Prelude.{◌≡◌, refl, sym, ap, ◌∙◌, arith, some}
use merkle_tree_certs.Prelude.{true, false, ltb, ◌==◌, ==_iff, le→ltb}
use merkle_tree_certs.Prelude.{ok}
use merkle_tree_certs.Bits.Powers.{
  two-pow-pos, IsMultiple, div-IsMultiple, div-pred, two-pow-split, lt_of_mul, le_of_mul, eq_of_mul,
}
use merkle_tree_certs.Bits.{trailing_zeros64}
use merkle_tree_certs.Log.Hash.{HashValue, Digest, hash_empty}
use merkle_tree_certs.Log.Tree.{MerkleTree}
use merkle_tree_certs.Log.Mth.{Mth, Mth-ends, IsTreeOf}
use merkle_tree_certs.Log.Subtree.{is_valid_subtree, subtree_loop, subtree_hash}
use merkle_tree_certs.Log.Subtree.Valid.{IsSubtree, is_valid_subtree_iff, subtree_level}
use merkle_tree_certs.Log.Subtree.Start.{
  edge_word, level_of, level_of_le, start_IsMultiple, end_IsMultiple,
}
use merkle_tree_certs.Log.Subtree.Climb.{IsEdge, subtree_loop_lem}

module _ (sha256 : Digest) (leaf : ℕ → HashValue) (mt : MerkleTree) (n : ℕ)
    (tree : IsTreeOf sha256 leaf mt n) where
  -- The node that the loop starts from: a complete subtree that ends at `end`, `q` nodes of that
  -- level into the tree.
  start-IsEdge :
      (end t b : ℕ)
      → end ≡ suc b * 2 ^ t
      → end ≤ n
      → (h : HashValue) × (mt.full_subtree_hash_by_level t ((end - 1) / 2 ^ t) ≡ some h)
        × IsEdge sha256 leaf mt n tree end t ((end - 1) / 2 ^ t) h
  start-IsEdge end t b e within =
      let at_b : (end - 1) / 2 ^ t ≡ b =
        ap (λ x. (x - 1) / 2 ^ t) e ∙ div-pred (2 ^ t) b (two-pow-pos t) in
      let top : (b + 1) * 2 ^ t ≡ end = omega arith in
      let (h, eh, mh) = tree.full t b (omega arith) in
      rw at_b (
        h,
        eh,
        (omega (arith, two-pow-pos t), omega arith, within, Mth-ends sha256 leaf refl top mh),
      )

  -- From the edge at level `t` the subtree is `k - t` levels up.
  loop_reaches :
      (start end k t b : ℕ) (ret : HashValue)
      → start < end
      → k ≤ 64
      → IsMultiple (2 ^ k) start
      → end ≤ start + 2 ^ k
      → t ≤ k
      → IsMultiple (2 ^ t) start
      → end ≡ suc b * 2 ^ t
      → IsEdge sha256 leaf mt n tree end t ((end - 1) / 2 ^ t) ret
      → (h : HashValue) × (subtree_loop sha256 mt 65 t (start / 2 ^ t) ((end - 1) / 2 ^ t) ret
          ≡ ok h)
        × Mth sha256 leaf start end h
  loop_reaches start end k t b ret less small (m, em) size below multiple e edge =
      let (h, eh, mth) =
        subtree_loop_lem sha256 leaf mt n tree (k - t) 65 end t m s ((end - 1) / 2 ^ t) ret
          (omega arith)
          (eq_of_mul (2 ^ t) s (m * 2 ^ (k - t)) pos (omega (arith, exact, em, spread)))
          (rw at_b (omega (arith, lt_of_mul (2 ^ t) s (suc b) (omega (arith, exact)))))
          (rw at_b (le_of_mul (2 ^ t) (suc b) (s + 2 ^ (k - t)) pos (omega (arith, exact, powers))))
          edge in
      (h, eh, Mth-ends sha256 leaf exact refl mth)
    where
      s : ℕ
      s = start / 2 ^ t

      pos : 0 < 2 ^ t
      pos = two-pow-pos t

      exact : s * 2 ^ t ≡ start
      exact = div-IsMultiple (2 ^ t) start pos multiple

      powers : 2 ^ k ≡ 2 ^ (k - t) * 2 ^ t
      powers = two-pow-split t k below

      spread : m * 2 ^ k ≡ m * 2 ^ (k - t) * 2 ^ t
      spread = ap (λ x. m * x) powers ∙ sym (mul_assoc m (2 ^ (k - t)) (2 ^ t))

      at_b : (end - 1) / 2 ^ t ≡ b
      at_b = ap (λ x. (x - 1) / 2 ^ t) e ∙ div-pred (2 ^ t) b pos

  -- What `subtree_hash` comes to past its checks.
  size_fits : (end : ℕ) → end ≤ n → ltb mt.size end ≡ false
  size_fits end h = rw tree.size (le→ltb n end h)

  subtree_hash_calls :
      (start end : ℕ) (ret : HashValue) {h : HashValue}
      → start < end
      → end ≤ n
      → is_valid_subtree start end ≡ true
      → let t = trailing_zeros64 (edge_word start end) in
        mt.full_subtree_hash_by_level t ((end - 1) / 2 ^ t) ≡ some ret
        → subtree_loop sha256 mt 65 t (start / 2 ^ t) ((end - 1) / 2 ^ t) ret ≡ ok h
        → subtree_hash sha256 mt start end ≡ ok h
  unfolding subtree_hash
  subtree_hash_calls start end ret less within valid full eh =
      rw (valid, size_fits end within, differ, full) eh
    where
      differ : (start == end) ≡ false
      differ = ground arith

  subtree_hash_empty :
      (start end : ℕ)
      → start ≡ end
      → end ≤ n
      → is_valid_subtree start end ≡ true
      → subtree_hash sha256 mt start end ≡ ok (hash_empty sha256)
  unfolding subtree_hash
  subtree_hash_empty start end same within valid =
      rw (valid, size_fits end within, (==_iff start end).1 same) refl

  subtree_hash_parts :
      (start end k : ℕ)
      → start < end
      → end ≤ n
      → n < 2 ^ 64
      → k ≤ 64
      → IsMultiple (2 ^ k) start
      → end ≤ start + 2 ^ k
      → is_valid_subtree start end ≡ true
      → (h : HashValue) × (subtree_hash sha256 mt start end ≡ ok h) × Mth sha256 leaf start end h
  subtree_hash_parts start end k less within bound small multiple size valid =
      at_end (end_IsMultiple start end k less (omega arith) small multiple size)
    where
      t : ℕ
      t = level_of start end k less (omega arith) small multiple size

      at_end :
          IsMultiple (2 ^ t) end
          → (h : HashValue) × (subtree_hash sha256 mt start end ≡ ok h)
            × Mth sha256 leaf start end h
      at_end (zero, e) = absurd (omega arith)
      at_end (suc b, e) =
          let (ret, full, edge) = start-IsEdge end t b e within in
          let (h, eh, mth) =
            loop_reaches start end k t b ret less small multiple size
              (level_of_le start end k less (omega arith) small multiple size)
              (start_IsMultiple start end k less (omega arith) small multiple size) e edge in
          (h, subtree_hash_calls start end ret less within valid full eh, mth)

  -- For a tree of fewer than 2 ^ 64 entries that keeps what `MerkleTree` promises, `SubtreeHash`
  -- returns the Merkle Tree Hash MTH(D[start:end]) of every subtree inside the tree.
  pub subtree_hash-Mth :
      (start end : ℕ)
      → IsSubtree start end
      → end ≤ n
      → n < 2 ^ 64
      → (h : HashValue) × (subtree_hash sha256 mt start end ≡ ok h) × Mth sha256 leaf start end h
  subtree_hash-Mth start end sub within bound = elim (ℕ_discrete start end) [
    | yes same ↦ (
      hash_empty sha256,
      subtree_hash_empty start end same within
          ((is_valid_subtree_iff start end (omega arith)).1 sub),
      Mth.none_left (sym same),
    )
    | no other ↦
        let (k, small, multiple, size) = subtree_level start end sub (omega arith) in
        subtree_hash_parts start end k (omega (arith, sub.0, other)) within bound small multiple
          size ((is_valid_subtree_iff start end (omega arith)).1 sub)
  ]
