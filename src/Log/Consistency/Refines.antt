-- ===== src/Log/Consistency/Refines.antt =====
-- `SubtreeConsistencyProof` of demo/log.go against SUBTREE_SUBPROOF of the draft.
use native.Mathlib.Decide.{dec_lt}
use merkle_tree_certs.Prelude.{ℕ, zero, suc, ◌+◌, ◌-◌, ◌%◌, ◌^◌, ◌≤◌, ◌<◌, ◌≢◌}
use merkle_tree_certs.Prelude.{◌≡◌, refl, ◌∙◌, arith, inl, inr, [], ◌++◌}
use merkle_tree_certs.Prelude.{Outcome, Bool, true, false, ok}
use merkle_tree_certs.Bits.{len64}
use merkle_tree_certs.Bits.Powers.{two-pow-pos, IsMultiple}
use merkle_tree_certs.Log.Hash.{Bytes, HashValue, Digest}
use merkle_tree_certs.Log.Tree.{MerkleTree}
use merkle_tree_certs.Log.Mth.{Mth, IsTreeOf}
use merkle_tree_certs.Log.Subtree.{LogError, is_valid_subtree}
use merkle_tree_certs.Log.Subtree.Valid.{IsSubtree, is_valid_subtree_iff}
use merkle_tree_certs.Log.Subtree.Refines.{subtree_hash-Mth}
use merkle_tree_certs.Log.Consistency.{
  split_size, add_sibling, subtree_subproof, subtree_consistency_proof,
}
use merkle_tree_certs.Log.Consistency.Subproof.{Subproof}
use merkle_tree_certs.Log.Consistency.Split.{
  Aligned, across_start, split_at, whole_or_split, ends_before, two_entries,
}
use merkle_tree_certs.Log.Consistency.Steps.{goes_left, goes_right, goes_across, goes_whole}

module _ (sha256 : Digest) (leaf : ℕ → HashValue) (mt : MerkleTree) (n : ℕ)
    (tree : IsTreeOf sha256 leaf mt n) (bound : n < 2 ^ 64) where
  -- The proof that a call makes is the draft's.
  abbrev Makes : Outcome LogError Bytes → ℕ → ℕ → ℕ → ℕ → Bool → Type 0
  Makes call start end lo hi known =
      (proof : Bytes) × (call ≡ ok proof) × Subproof sha256 leaf start end lo hi known proof

  whole_window :
      (f start end lo hi : ℕ) (known : Bool)
      → start ≡ lo
      → end ≡ hi
      → IsSubtree lo hi
      → hi ≤ n
      → Makes (subtree_subproof sha256 mt (suc f) start end lo hi known) start end lo hi known
  whole_window f start end lo hi true p q sub within =
      ([], goes_whole sha256 mt f start end lo hi true p q, Subproof.whole_known p q)
  whole_window f start end lo hi false p q sub within =
      let (h, eh, mh) = subtree_hash-Mth sha256 leaf mt n tree lo hi sub within bound in
      (h, goes_whole sha256 mt f start end lo hi false p q ∙ eh, Subproof.whole_unknown p q mh)

  sibling :
      (rest : Outcome LogError Bytes) (proof : Bytes) (lo hi k : ℕ)
      → rest ≡ ok proof
      → lo ≤ hi
      → Aligned k lo hi
      → hi ≤ n
      → (h : HashValue) × (add_sibling sha256 mt rest lo hi ≡ ok (proof ++ h))
        × Mth sha256 leaf lo hi h
  unfolding add_sibling
  sibling rest proof lo hi k e order aligned within =
      let (h, eh, mh) =
        subtree_hash-Mth sha256 leaf mt n tree lo hi (order, (k, aligned.0, aligned.1)) within
          bound in
      (h, rw (e, eh) refl, mh)

  -- One split of the window, with the proof for the part.
  module _ (f start end lo hi k : ℕ) (known : Bool)
      (split : split_size (len64 ((hi + 2 ^ 64 - lo - 1) % 2 ^ 64)) ≡ ok (2 ^ k))
      (other : start ≡ lo → end ≢ hi) (low : lo + 2 ^ k < hi) (high : hi ≤ lo + 2 ^ k + 2 ^ k)
      (ml : IsMultiple (2 ^ k) lo) (mm : IsMultiple (2 ^ k) (lo + 2 ^ k)) (within : hi ≤ n) where
    by_left :
        end ≤ lo + 2 ^ k
        → Makes
            (subtree_subproof sha256 mt f start end lo (lo + 2 ^ k) known)
            start
            end
            lo
            (lo + 2 ^ k)
            known
        → Makes (subtree_subproof sha256 mt (suc f) start end lo hi known) start end lo hi known
    by_left left (proof, e, sub) =
        let (h, es, mh) =
          sibling _ proof (lo + 2 ^ k) hi k e (omega arith) (mm, omega arith) within in
        (
          proof ++ h,
          goes_left sha256 mt f start end lo hi k known split other left ∙ es,
          Subproof.in_left k refl low high left sub mh,
        )

    by_right :
        lo + 2 ^ k ≤ start
        → start < end
        → Makes
            (subtree_subproof sha256 mt f start end (lo + 2 ^ k) hi known)
            start
            end
            (lo + 2 ^ k)
            hi
            known
        → Makes (subtree_subproof sha256 mt (suc f) start end lo hi known) start end lo hi known
    by_right right less (proof, e, sub) =
        let (h, es, mh) =
          sibling _ proof lo (lo + 2 ^ k) k e (omega arith) (ml, omega arith) (omega arith) in
        (
          proof ++ h,
          goes_right sha256 mt f start end lo hi k known split other right less ∙ es,
          Subproof.in_right k refl low high right sub mh,
        )

    by_across :
        start ≡ lo
        → lo + 2 ^ k < end
        → end ≤ hi
        → Makes
            (subtree_subproof sha256 mt f (lo + 2 ^ k) end (lo + 2 ^ k) hi false)
            (lo + 2 ^ k)
            end
            (lo + 2 ^ k)
            hi
            false
        → Makes (subtree_subproof sha256 mt (suc f) start end lo hi known) start end lo hi known
    by_across at_start over inside (proof, e, sub) =
        let (h, es, mh) =
          sibling _ proof lo (lo + 2 ^ k) k e (omega arith) (ml, omega arith) (omega arith) in
        (
          proof ++ h,
          goes_across sha256 mt f start end lo hi k known split other (omega (arith, two-pow-pos k))
                over
              ∙ es,
          Subproof.across k refl low high at_start over (ends_before other at_start inside) sub mh,
        )

  subtree_subproof-Subproof :
      (f start end lo hi w j : ℕ) (known : Bool)
      → w < f
      → Aligned w lo hi
      → Aligned j start end
      → lo ≤ start
      → start < end
      → end ≤ hi
      → hi ≤ n
      → Makes (subtree_subproof sha256 mt f start end lo hi known) start end lo hi known
  subtree_subproof-Subproof zero start end lo hi w j known less aw aj a b c d = absurd (omega arith)
  subtree_subproof-Subproof (suc f) start end lo hi w j known less aw aj a b c d =
      elim (whole_or_split start end lo hi) [
        | inl (p, q) ↦ whole_window f start end lo hi known p q (omega arith, (w, aw.0, aw.1)) d
        | inr other ↦
            let (k, ek, shorter, low, high, ml, mm) =
              split_at w lo hi (omega arith) aw (two_entries other a b c) in
            elim (dec_lt (lo + 2 ^ k) end) [
              | no left ↦
                  by_left f start end lo hi k known ek other low high ml mm d (omega arith) (
                    subtree_subproof-Subproof f start end lo (lo + 2 ^ k) k j known (omega arith)
                      (ml, omega arith) aj a b (omega arith) (omega arith))
              | yes over ↦ elim (dec_lt start (lo + 2 ^ k)) [
                | no right ↦
                    by_right f start end lo hi k known ek other low high ml mm d (omega arith) b (
                      subtree_subproof-Subproof f start end (lo + 2 ^ k) hi k j known (omega arith)
                        (mm, omega arith) aj (omega arith) b c d)
                | yes inner ↦
                    by_across f start end lo hi k known ek other low high ml mm d
                      (across_start j k w start end lo hi aj aw shorter a inner over) over c
                      (subtree_subproof-Subproof f (lo + 2 ^ k) end (lo + 2 ^ k) hi k k false
                        (omega arith) (mm, omega arith) (mm, omega arith) (omega arith) over c d)
              ]
            ]
      ]

  consistency_checks :
      (start end size : ℕ)
      → is_valid_subtree start end ≡ true
      → start < end
      → end ≤ size
      → size ≤ n
      → subtree_consistency_proof sha256 mt start end size
        ≡ subtree_subproof sha256 mt 65 start end 0 size true
  unfolding subtree_consistency_proof
  consistency_checks start end size valid less within room = ground (arith, tree.size)

  -- For a tree of fewer than 2 ^ 64 entries that keeps what `MerkleTree` promises, and every subtree
  -- with an entry inside its first `size` entries, `SubtreeConsistencyProof` returns a proof that
  -- SUBTREE_SUBPROOF of the draft prescribes: no look-up panics, no `SubtreeHash` call fails, and
  -- the recursion ends.
  pub subtree_consistency_proof-Subproof :
      (start end size : ℕ)
      → IsSubtree start end
      → start < end
      → end ≤ size
      → size ≤ n
      → (proof : Bytes) × (subtree_consistency_proof sha256 mt start end size ≡ ok proof)
        × Subproof sha256 leaf start end 0 size true proof
  subtree_consistency_proof-Subproof start end size sub less within room =
      let valid = (is_valid_subtree_iff start end (omega arith)).1 sub in
      let (_, (j, mj, sj)) = sub in
      let (proof, e, spec) =
        subtree_subproof-Subproof 65 start end 0 size 64 j true (omega arith)
          ((0, omega arith), omega arith) (mj, sj) (omega arith) less within room in
      (proof, consistency_checks start end size valid less within room ∙ e, spec)
