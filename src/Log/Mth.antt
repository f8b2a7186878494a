-- ===== src/Log/Mth.antt =====
-- The Merkle Tree Hash of RFC 9162, section 2.1.1, as a relation: `Mth lo hi h` says that `h` is
-- MTH(D[lo:hi]), for entries whose leaf hashes are `leaf`. A range of two entries or more is split
-- after the largest power of two below its size.
use mathlib.Core.Path.{subst₂, ap₂}
use merkle_tree_certs.Prelude.{
  ℕ, ◌+◌, ◌*◌, ◌^◌, ◌≤◌, ◌<◌, ◌≡◌, some, ◌-◌, refl, sym, ap, ◌∙◌, arith, length,
}
use merkle_tree_certs.Bits.Powers.{two-pow-pos, two-pow-between}
use merkle_tree_certs.Log.Hash.{
  HashValue, Digest, hash_size, hash_empty, hash_node, length-hash_empty, length-hash_node,
}
use merkle_tree_certs.Log.Tree.{MerkleTree}

pub data Mth (sha256 : Digest) (leaf : ℕ → HashValue) : ℕ → ℕ → HashValue → Type 0 where
  none_left : {lo hi : ℕ} → hi ≡ lo → Mth sha256 leaf lo hi (hash_empty sha256)
  single : {lo hi : ℕ} → hi ≡ lo + 1 → Mth sha256 leaf lo hi (leaf lo)
  split :
      {lo mid hi : ℕ} {l r : HashValue} (k : ℕ)
      → mid ≡ lo + 2 ^ k
      → mid < hi
      → hi ≤ mid + 2 ^ k
      → Mth sha256 leaf lo mid l
      → Mth sha256 leaf mid hi r
      → Mth sha256 leaf lo hi (hash_node sha256 l r)

-- What a `MerkleTree` promises to the functions on subtrees: its size, and at every level the
-- hashes of the complete subtrees inside it.
pub record IsTreeOf (sha256 : Digest) (leaf : ℕ → HashValue) (mt : MerkleTree) (n : ℕ)
    : Type 0 where
  pub size : mt.size ≡ n
  pub full :
      (level idx : ℕ)
      → (idx + 1) * 2 ^ level ≤ n
      → (h : HashValue) × (mt.full_subtree_hash_by_level level idx ≡ some h)
        × Mth sha256 leaf (idx * 2 ^ level) ((idx + 1) * 2 ^ level) h

-- The ends of a range may be written another way.
pub Mth-ends :
    (sha256 : Digest) (leaf : ℕ → HashValue) {lo lo' hi hi' : ℕ} {h : HashValue}
    → lo ≡ lo'
    → hi ≡ hi'
    → Mth sha256 leaf lo hi h
    → Mth sha256 leaf lo' hi' h
Mth-ends sha256 leaf {h} p q m = subst₂ (λ a b. Mth sha256 leaf a b h) p q m

module _ (sha256 : Digest) (leaf : ℕ → HashValue) where
  -- RFC 9162 determines the hash of a range.
  pub Mth-unique :
      {lo hi : ℕ} {h h' : HashValue} → Mth sha256 leaf lo hi h → Mth sha256 leaf lo hi h' → h ≡ h'
  Mth-unique (Mth.none_left e) (Mth.none_left e') = refl
  Mth-unique (Mth.none_left e) (Mth.single e') = absurd (omega arith)
  Mth-unique (Mth.none_left e) (Mth.split k em lt le l r) = absurd (omega arith)
  Mth-unique (Mth.single e) (Mth.none_left e') = absurd (omega arith)
  Mth-unique (Mth.single e) (Mth.single e') = refl
  Mth-unique (Mth.single e) (Mth.split k em lt le l r) = absurd (omega (arith, two-pow-pos k))
  Mth-unique (Mth.split k em lt le l r) (Mth.none_left e) = absurd (omega arith)
  Mth-unique (Mth.split k em lt le l r) (Mth.single e) = absurd (omega (arith, two-pow-pos k))
  Mth-unique {lo} {hi} (Mth.split k em lt le l r) (Mth.split k' em' lt' le' l' r') =
      let same : k' ≡ k =
        two-pow-between k' k (hi - lo) (omega arith) (omega arith) (omega arith) (omega arith) in
      let mids = em' ∙ ap (λ j. lo + 2 ^ j) same ∙ sym em in
      ap₂ (hash_node sha256) (Mth-unique l (Mth-ends sha256 leaf refl mids l'))
        (Mth-unique r (Mth-ends sha256 leaf mids refl r'))

  -- Every hash has the size of the digest.
  pub length-Mth :
      ((i : ℕ) → length (leaf i) ≡ hash_size)
      → {lo hi : ℕ} {h : HashValue} → Mth sha256 leaf lo hi h
      → length h ≡ hash_size
  length-Mth leaves (Mth.none_left e) = length-hash_empty sha256
  length-Mth leaves (Mth.single {lo} e) = leaves lo
  length-Mth leaves (Mth.split {l = a} {r = b} k em lt le l r) = length-hash_node sha256 a b
