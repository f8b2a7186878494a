-- ===== src/Log/Hash.antt =====
-- The hash functions at the top of demo/log.go. `crypto/sha256` is not part of the program: the
-- digest is a parameter, of which the code relies on the length alone (`HashSize`).
use merkle_tree_certs.Prelude.{ℕ, ◌≡◌, List, [], ◌∷◌, ◌++◌, length}

-- `sha256.Size`
abbrev pub hash_size : ℕ
hash_size = 32

-- A slice of bytes, and a hash as the bytes of the Go array.
abbrev pub Bytes : Type 0
Bytes = List ℕ

abbrev pub HashValue : Type 0
HashValue = Bytes

-- `sum` is what `Sum` gives after the bytes were written.
pub record Digest : Type 0 where
  pub sum : Bytes → HashValue
  pub length-sum : (b : Bytes) → length (sum b) ≡ hash_size

module _ (sha256 : Digest) where
  unfoldable pub hash_empty : HashValue
  hash_empty = sha256.sum []

  unfoldable pub hash_leaf : Bytes → HashValue
  hash_leaf b = sha256.sum (0 ∷ b)

  unfoldable pub hash_node : HashValue → HashValue → HashValue
  hash_node left right = sha256.sum (1 ∷ (left ++ right))

  pub length-hash_leaf : (b : Bytes) → length (hash_leaf b) ≡ hash_size
  unfolding hash_leaf
  length-hash_leaf b = sha256.length-sum (0 ∷ b)

  pub length-hash_node : (l r : HashValue) → length (hash_node l r) ≡ hash_size
  unfolding hash_node
  length-hash_node l r = sha256.length-sum (1 ∷ (l ++ r))

  pub length-hash_empty : length hash_empty ≡ hash_size
  unfolding hash_empty
  length-hash_empty = sha256.length-sum []
