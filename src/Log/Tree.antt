-- ===== src/Log/Tree.antt =====
-- `MerkleTree` and `StaticMerkleTree` of demo/log.go.
pub mod Levels
use merkle_tree_certs.Prelude.{ℕ, zero, suc, ◌-◌, ◌^◌, ltb, if◌then◌else◌}
use merkle_tree_certs.Prelude.{List, [], ◌∷◌, map, length, get_elem?, Option, none, some}
use merkle_tree_certs.Log.Hash.{Bytes, HashValue, Digest, hash_leaf, hash_node}

-- The interface: what the functions on subtrees use of a tree. `none` is a panic.
pub record MerkleTree : Type 0 where
  pub size : ℕ
  pub full_subtree_hash_by_level : ℕ → ℕ → Option HashValue

-- `levels[i][j]` has MTH(D[2^i*j:2^i*(j+1)]).
pub record StaticMerkleTree : Type 0 where
  pub levels : List (List HashValue)

module _ (sha256 : Digest) where
  -- One round of the loop: the pairs `last[2*i]`, `last[2*i+1]`, for `i` below `len(last)/2`. An
  -- odd hash at the end has no pair.
  unfoldable pub next_level : List HashValue → List HashValue
  next_level [] = []
  next_level (a ∷ []) = []
  next_level (a ∷ b ∷ rest) = hash_node sha256 a b ∷ next_level rest

  -- The levels from `last` up. A level has half the hashes of the one below, so the number of
  -- hashes on the lowest level is fuel enough.
  unfoldable pub levels_from : ℕ → List HashValue → List (List HashValue)
  levels_from zero last = last ∷ []
  levels_from (suc fuel) last =
      let rest = levels_from fuel (next_level last) in
      if ltb (length last) 2 then last ∷ [] else last ∷ rest

  unfoldable pub new_static_merkle_tree : List Bytes → StaticMerkleTree
  new_static_merkle_tree entries = record {
    levels = levels_from (length entries) (map (hash_leaf sha256) entries);
  }

-- `len(mt.levels[0])`; a tree made by `new_static_merkle_tree` has a level.
abbrev pub first_length : List (List HashValue) → ℕ
first_length [] = 0
first_length (level ∷ rest) = length level

abbrev pub static_size : StaticMerkleTree → ℕ
static_size mt = first_length mt.levels

-- Indexing out of range panics.
abbrev pub index_level : Option (List HashValue) → ℕ → Option HashValue
index_level none idx = none
index_level (some level) idx = get_elem? level idx

unfoldable pub static_hash_by_level : StaticMerkleTree → ℕ → ℕ → Option HashValue
static_hash_by_level mt level idx =
    if ltb (2 ^ 63 - 1) idx then none else index_level (get_elem? mt.levels level) idx

abbrev pub static_tree : StaticMerkleTree → MerkleTree
static_tree mt = record {
  size = static_size mt;
  full_subtree_hash_by_level = static_hash_by_level mt;
}
