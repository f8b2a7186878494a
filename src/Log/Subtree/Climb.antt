-- ===== src/Log/Subtree/Climb.antt =====
-- The loop of `SubtreeHash` of demo/log.go, along the right edge of a subtree.
use native.Mathlib.Nat.{pow-suc}
use merkle_tree_certs.Prelude.{ℕ, zero, suc, ◌+◌, ◌-◌, ◌*◌, ◌/◌, ◌%◌, ◌^◌, ◌≤◌, ◌<◌}
use merkle_tree_certs.Prelude.{◌≡◌, refl, ap, ◌∙◌, arith, inl, inr, ◌≢◌}
use merkle_tree_certs.Prelude.{false, ltb, ◌==◌, Bool-cases, ==_iff, le→ltb, ltb→le}
use merkle_tree_certs.Prelude.{ok}
use merkle_tree_certs.Bits.Powers.{two-pow-pos, mul-two-pow-suc, mul-two-pow-next}
use merkle_tree_certs.Log.Hash.{HashValue, Digest, hash_node}
use merkle_tree_certs.Log.Tree.{MerkleTree}
use merkle_tree_certs.Log.Mth.{Mth, Mth-ends, IsTreeOf}
use merkle_tree_certs.Log.Subtree.{join_left, subtree_loop}
use merkle_tree_certs.Log.Subtree.Start.{}

module _ (sha256 : Digest) (leaf : ℕ → HashValue) (mt : MerkleTree) (n : ℕ)
    (tree : IsTreeOf sha256 leaf mt n) where
  -- `ret` is the hash from the start of node `last` of the level to `end`, inside the node.
  abbrev pub IsEdge : ℕ → ℕ → ℕ → HashValue → Type 0
  IsEdge end level last ret =
      (last * 2 ^ level < end)
      × (end ≤ (last + 1) * 2 ^ level)
      × (end ≤ n)
      × Mth sha256 leaf (last * 2 ^ level) end ret

  -- A round of the loop climbs one level along the right edge.
  pub join_left-IsEdge :
      (end level last : ℕ) (ret : HashValue)
      → IsEdge end level last ret
      → (h : HashValue) × (join_left sha256 mt level last ret ≡ ok h)
        × IsEdge end ((level + 1)) (last / 2) h
  unfolding join_left
  join_left-IsEdge end level last ret (lo, hi, within, m) = elim (Bool-cases (last % 2 == 1)) [
    | inl odd ↦
        let e : last ≡ 2 * (last / 2) + 1 = omega (arith, (==_iff _ _).0 odd) in
        let low : (last - 1) * 2 ^ level ≡ last / 2 * 2 ^ (level + 1) =
          ap (λ (t : ℕ). t * 2 ^ level) (below e) ∙ omega (arith, next) in
        let mid : (last - 1 + 1) * 2 ^ level ≡ last * 2 ^ level =
          ap (λ (t : ℕ). t * 2 ^ level) (omega arith) in
        let up : last * 2 ^ level ≡ last / 2 * 2 ^ (level + 1) + 2 ^ level =
          omega (arith, ap (λ (t : ℕ). t * 2 ^ level) e, next) in
        let (h, eh, mh) = tree.full level (last - 1) (omega (arith, mid)) in
        (
          hash_node sha256 h ret,
          rw (odd, eh) refl,
          (
            omega (arith, up),
            omega (arith, up, top, next),
            within,
            Mth.split level up lo (omega arith) (Mth-ends sha256 leaf low mid mh) m,
          ),
        )
    | inr even ↦
        let e : last ≡ 2 * (last / 2) = omega (arith, ne even) in
        let low : last * 2 ^ level ≡ last / 2 * 2 ^ (level + 1) =
          omega (arith, ap (λ (t : ℕ). t * 2 ^ level) e, next) in
        (
          ret,
          rw even refl,
          (
            omega (arith, low),
            omega (arith, low, next, top, two-pow-pos level),
            within,
            Mth-ends sha256 leaf low refl m,
          ),
        )
  ]
    where
      next : last / 2 * 2 ^ (level + 1) ≡ 2 * (last / 2 * 2 ^ level)
      next = mul-two-pow-next (last / 2) level

      top : (last / 2 + 1) * 2 ^ (level + 1) ≡ 2 * (last / 2 * 2 ^ level) + 2 * 2 ^ level
      top = omega (arith, mul-two-pow-next (last / 2 + 1) level)

      below : last ≡ 2 * (last / 2) + 1 → last - 1 ≡ 2 * (last / 2)
      below f = omega arith

      ne : (last % 2 == 1) ≡ false → last % 2 ≢ 1
      ne f g = ground arith

  -- The loop ends on the level where the subtree is one node: `k` levels up, `start` being `m` times
  -- 2 ^ k, and the hash reached is that of the subtree.
  pub subtree_loop_lem :
      (k fuel end level m start last : ℕ) (ret : HashValue)
      → k < fuel
      → start ≡ m * 2 ^ k
      → start ≤ last
      → last < start + 2 ^ k
      → IsEdge end level last ret
      → (h : HashValue) × (subtree_loop sha256 mt fuel level start last ret ≡ ok h)
        × Mth sha256 leaf (start * 2 ^ level) end h
  unfolding subtree_loop
  subtree_loop_lem k zero end level m start last ret f es le lt edge = absurd (omega arith)
  subtree_loop_lem zero (suc fuel) end level m start last ret f es le lt edge =
      let same : last ≡ start = omega arith in
      (
        ret,
        rw (le→ltb start last (omega arith)) refl,
        Mth-ends sha256 leaf (ap (λ (t : ℕ). t * 2 ^ level) same) refl edge.3,
      )
  subtree_loop_lem (suc k) (suc fuel) end level m start last ret f es le lt edge =
      elim (Bool-cases (ltb start last)) [
        | inl less ↦
            let half : start / 2 ≡ m * 2 ^ k = omega (arith, mul-two-pow-suc m k) in
            let (h1, e1, edge1) = join_left-IsEdge end level last ret edge in
            let (h, e, mth) =
              subtree_loop_lem k fuel end (level + 1) m (start / 2) (last / 2) h1 (omega arith) half
                (omega arith) (omega (arith, mul-two-pow-suc m k, pow-suc 2 k)) edge1 in
            (
              h,
              rw (less, e1) e,
              Mth-ends sha256 leaf
                  (omega (
                    arith,
                    mul-two-pow-next (start / 2) level,
                    ap (λ (t : ℕ). t * 2 ^ level) (twice (omega (arith, mul-two-pow-suc m k))),
                  ))
                  refl mth,
            )
        | inr done ↦
            let same : last ≡ start = omega (arith, ltb→le start last done) in
            (
              ret,
              rw done refl,
              Mth-ends sha256 leaf (ap (λ (t : ℕ). t * 2 ^ level) same) refl edge.3,
            )
      ]
    where
      twice : start % 2 ≡ 0 → start ≡ 2 * (start / 2)
      twice f = omega arith
