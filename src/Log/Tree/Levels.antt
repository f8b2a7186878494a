-- ===== src/Log/Tree/Levels.antt =====
-- The levels of a tree made by `NewStaticMerkleTree` of demo/log.go.
use native.Mathlib.Nat.{le-div_iff_mul-le, div-one}
use merkle_tree_certs.Prelude.{ℕ, zero, suc, ◌+◌, ◌-◌, ◌*◌, ◌/◌, ◌^◌, ◌≤◌, ◌<◌}
use merkle_tree_certs.Prelude.{◌≡◌, refl, sym, ap, subst, ◌∙◌, arith, inl, inr, some}
use merkle_tree_certs.Prelude.{ltb, Bool-cases, le→ltb, ltb→lt, ltb→le}
use merkle_tree_certs.Prelude.{
  List, [], ◌∷◌, map, length, get_elem?, get_or, length-map, get_elem?-map,
}
use merkle_tree_certs.Bits.Powers.{two-pow-pos, mul-two-pow-suc, shift-suc, shift-le}
use merkle_tree_certs.Log.Hash.{Bytes, HashValue, Digest, hash_leaf, hash_node}
use merkle_tree_certs.Log.Mth.{Mth, Mth-ends, IsTreeOf}
use merkle_tree_certs.Log.Tree.{
  first_length, next_level, levels_from, index_level, new_static_merkle_tree, static_hash_by_level,
  static_tree,
}

module _ (sha256 : Digest) where
  length-next_level : (last : List HashValue) → length (next_level sha256 last) ≡ length last / 2
  unfolding next_level
  length-next_level [] = refl
  length-next_level (a ∷ []) = refl
  length-next_level (a ∷ b ∷ rest) = omega (arith, length-next_level rest)

  get_elem?-next_level :
      (last : List HashValue) (idx : ℕ) {a b : HashValue}
      → get_elem? last (2 * idx) ≡ some a
      → get_elem? last (suc (2 * idx)) ≡ some b
      → get_elem? (next_level sha256 last) idx ≡ some (hash_node sha256 a b)
  unfolding next_level
  get_elem?-next_level [] idx p q = cc
  get_elem?-next_level (x ∷ []) idx p q = cc
  get_elem?-next_level (x ∷ y ∷ rest) zero p q = cc
  get_elem?-next_level (x ∷ y ∷ rest) (suc idx) p q =
      let e : 2 * suc idx ≡ suc (suc (2 * idx)) = omega arith in
      get_elem?-next_level rest idx (rw e at p) (rw e at q)

  module _ (leaf : ℕ → HashValue) (n : ℕ) where
    -- `level` holds the hashes of all complete subtrees of 2 ^ i entries.
    record IsLevel (i : ℕ) (level : List HashValue) : Type 0 where
      count : length level ≡ n / 2 ^ i
      hashes :
          (idx : ℕ)
          → idx < length level
          → (h : HashValue) × (get_elem? level idx ≡ some h)
            × Mth sha256 leaf (idx * 2 ^ i) ((idx + 1) * 2 ^ i) h

    IsLevel-next_level :
        (i : ℕ) (level : List HashValue)
        → IsLevel i level
        → IsLevel (suc i) (next_level sha256 level)
    IsLevel-next_level i level good = record {
      count = length-next_level level ∙ ap (λ t. t / 2) good.count ∙ shift-suc n i;
      hashes = λ idx less.
          let room : idx < length level / 2 = rw (← length-next_level level) less in
          let (a, ea, ma) = good.hashes (2 * idx) (omega arith) in
          let (b, eb, mb) = good.hashes (suc (2 * idx)) (omega arith) in
          let double : idx * 2 ^ suc i ≡ 2 * idx * 2 ^ i = omega (arith, mul-two-pow-suc idx i) in
          let top : (suc (2 * idx) + 1) * 2 ^ i ≡ (idx + 1) * 2 ^ suc i =
            omega (arith, mul-two-pow-suc (idx + 1) i) in
          (
            hash_node sha256 a b,
            get_elem?-next_level level idx ea eb,
            Mth.split {mid = suc (2 * idx) * 2 ^ i} i (omega (arith, double))
                (omega (arith, top, two-pow-pos i)) (omega (arith, top))
                (Mth-ends sha256 leaf (sym double) (omega arith) ma)
                (Mth-ends sha256 leaf refl top mb),
          );
    }

    -- The list of levels from `last` on, the lowest of level `i`, has every level that is not empty.
    levels_from_lem :
        (fuel i j at idx : ℕ) (last : List HashValue)
        → IsLevel i last
        → length last ≤ fuel
        → at ≡ i + j
        → idx < n / 2 ^ at
        → (h : HashValue) × (index_level (get_elem? (levels_from sha256 fuel last) j) idx ≡ some h)
          × Mth sha256 leaf (idx * 2 ^ at) ((idx + 1) * 2 ^ at) h
    unfolding levels_from
    levels_from_lem zero i j at idx last good fits e less =
        absurd (omega (arith, good.count, shift-le n i at (omega arith)))
    levels_from_lem (suc fuel) i zero at idx last good fits e less =
        let same : i ≡ at = omega arith in
        let (h, eh, mh) = good.hashes idx (rw (good.count, same) less) in
        (
          h,
          elim (Bool-cases (ltb (length last) 2)) [ inl t ↦ rw t eh | inr f ↦ rw f eh ],
          subst (λ k. Mth sha256 leaf (idx * 2 ^ k) ((idx + 1) * 2 ^ k) h) same mh,
        )
    levels_from_lem (suc fuel) i (suc j) at idx last good fits e less =
        let half = shift-le n (suc i) at (omega arith) in
        let up = IsLevel-next_level i last good in
        elim (Bool-cases (ltb (length last) 2)) [
          | inl short ↦
              absurd (
                omega (arith, half, up.count, length-next_level last, ltb→lt (length last) 2 short))
          | inr long ↦ rw long (
              levels_from_lem fuel (suc i) j at idx (next_level sha256 last) up
                (omega (arith, length-next_level last, ltb→le (length last) 2 long)) (omega arith)
                less)
        ]

    first_length-levels_from :
        (fuel : ℕ) (last : List HashValue)
        → first_length (levels_from sha256 fuel last) ≡ length last
    unfolding levels_from
    first_length-levels_from zero last = refl
    first_length-levels_from (suc fuel) last = ground arith

  -- The leaf hash of entry `i`.
  abbrev pub leaf_of : List Bytes → ℕ → HashValue
  leaf_of entries i = hash_leaf sha256 (get_or entries i [])

  leaves-IsLevel :
      (entries : List Bytes)
      → IsLevel (leaf_of entries) (length entries) 0 (map (hash_leaf sha256) entries)
  leaves-IsLevel entries = record {
    count = length-map (hash_leaf sha256) entries ∙ sym (div-one (length entries));
    hashes = λ idx less. (
      leaf_of entries idx,
      get_elem?-map (hash_leaf sha256) entries idx []
          (rw (← length-map (hash_leaf sha256) entries) less),
      Mth-ends sha256 (leaf_of entries) {lo = idx} {hi = idx + 1} (omega arith) (omega arith)
          (Mth.single refl),
    );
  }

  -- `NewStaticMerkleTree` makes the tree of its entries, for any number that a Go slice can hold:
  -- its size is their number, and every complete subtree inside has its Merkle Tree Hash at its level.
  pub new_static_merkle_tree-IsTreeOf :
      (entries : List Bytes)
      → length entries < 2 ^ 63
      → IsTreeOf sha256
          (leaf_of entries)
          (static_tree (new_static_merkle_tree sha256 entries))
          (length entries)
  unfolding new_static_merkle_tree static_hash_by_level
  new_static_merkle_tree-IsTreeOf entries bound = record {
    size =
        first_length-levels_from (leaf_of entries) (length entries) (length entries)
          (map (hash_leaf sha256) entries)
        ∙ length-map (hash_leaf sha256) entries;
    full = λ level idx inside.
        let below : idx < length entries / 2 ^ level =
          (le-div_iff_mul-le (two-pow-pos level)).1 (omega arith) in
        let small : idx < length entries =
          omega
            (arith, shift-le (length entries) 0 level (omega arith), div-one (length entries)) in
        let (h, eh, mh) =
          levels_from_lem (leaf_of entries) (length entries) (length entries) 0 level level idx
            (map (hash_leaf sha256) entries) (leaves-IsLevel entries)
            (omega (arith, length-map (hash_leaf sha256) entries)) (omega arith) below in
        (h, rw (le→ltb (2 ^ 63 - 1) idx (omega arith)) eh, mh);
  }
