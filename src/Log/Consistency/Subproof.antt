-- ===== src/Log/Consistency/Subproof.antt =====
-- SUBTREE_SUBPROOF of the draft, as a relation, in absolute indices: `Subproof start end lo hi known
-- proof` says that `proof` is the proof for the subtree [start, end) of the window [lo, hi), where
-- `known` says that the verifier has the subtree's hash.
use merkle_tree_certs.Prelude.{ℕ, ◌+◌, ◌^◌, ◌≤◌, ◌<◌, ◌≡◌, Bool, true, false, [], ◌++◌}
use merkle_tree_certs.Log.Hash.{Bytes, HashValue, Digest}
use merkle_tree_certs.Log.Mth.{Mth}

pub data Subproof (sha256 : Digest) (leaf : ℕ → HashValue)
    : ℕ → ℕ → ℕ → ℕ → Bool → Bytes → Type 0 where
  whole_known :
      {start end lo hi : ℕ} → start ≡ lo → end ≡ hi → Subproof sha256 leaf start end lo hi true []
  whole_unknown :
      {start end lo hi : ℕ} {h : HashValue}
      → start ≡ lo
      → end ≡ hi
      → Mth sha256 leaf lo hi h
      → Subproof sha256 leaf start end lo hi false h
  in_left :
      {start end lo mid hi : ℕ} {known : Bool} {proof : Bytes} {h : HashValue} (k : ℕ)
      → mid ≡ lo + 2 ^ k
      → mid < hi
      → hi ≤ mid + 2 ^ k
      → end ≤ mid
      → Subproof sha256 leaf start end lo mid known proof
      → Mth sha256 leaf mid hi h
      → Subproof sha256 leaf start end lo hi known (proof ++ h)
  in_right :
      {start end lo mid hi : ℕ} {known : Bool} {proof : Bytes} {h : HashValue} (k : ℕ)
      → mid ≡ lo + 2 ^ k
      → mid < hi
      → hi ≤ mid + 2 ^ k
      → mid ≤ start
      → Subproof sha256 leaf start end mid hi known proof
      → Mth sha256 leaf lo mid h
      → Subproof sha256 leaf start end lo hi known (proof ++ h)
  across :
      {start end lo mid hi : ℕ} {known : Bool} {proof : Bytes} {h : HashValue} (k : ℕ)
      → mid ≡ lo + 2 ^ k
      → mid < hi
      → hi ≤ mid + 2 ^ k
      → start ≡ lo
      → mid < end
      → end < hi
      → Subproof sha256 leaf mid end mid hi false proof
      → Mth sha256 leaf lo mid h
      → Subproof sha256 leaf start end lo hi known (proof ++ h)
