-- ===== src/Log/Inclusion/Evaluate.antt =====
-- Rounds of the loop of `EvaluateSubtreeInclusionProof`.
use native.Mathlib.Nat.{pow-suc}
use merkle_tree_certs.Prelude.{ℕ, zero, suc, ◌/◌, ◌%◌, ◌^◌, ◌<◌}
use merkle_tree_certs.Prelude.{◌≡◌, refl, ◌∙◌, arith, inl, inr}
use merkle_tree_certs.Prelude.{false, ◌==◌, Bool-cases, ==_iff}
use merkle_tree_certs.Prelude.{[], ◌∷◌, ◌++◌, length, length-append, take-append, drop-append}
use merkle_tree_certs.Prelude.{ok}
use merkle_tree_certs.Log.Hash.{Bytes, HashValue, Digest, hash_size, hash_node}
use merkle_tree_certs.Log.Inclusion.{skip_zeros, evaluate_loop}

-- Fuel for the digits of `fn` is enough, and any such fuel gives one result.
skip_zeros_fuel :
    (f g fn sn : ℕ) → 0 < fn → fn < 2 ^ f → fn < 2 ^ g → skip_zeros f fn sn ≡ skip_zeros g fn sn
unfolding skip_zeros
skip_zeros_fuel zero g fn sn p hf hg = absurd (omega arith)
skip_zeros_fuel (suc f) zero fn sn p hf hg = absurd (omega arith)
skip_zeros_fuel (suc f) (suc g) fn sn p hf hg = elim (Bool-cases (fn % 2 == 0)) [
  | inl even ↦ rw even (
      skip_zeros_fuel f g (fn / 2) (sn / 2) (omega (arith, (==_iff _ _).0 even))
        (omega (arith, pow-suc 2 f)) (omega (arith, pow-suc 2 g)))
  | inr odd ↦ rw odd refl
]

skip_zeros-climb :
    (fn sn : ℕ)
    → 0 < fn
    → fn < 2 ^ 64
    → fn % 2 ≡ 0
    → skip_zeros 64 fn sn ≡ skip_zeros 64 (fn / 2) (sn / 2)
skip_zeros-climb fn sn p h even =
    once ∙ skip_zeros_fuel 63 64 (fn / 2) (sn / 2) (omega arith) (omega arith) (omega arith)
  where
    once : skip_zeros 64 fn sn ≡ skip_zeros 63 (fn / 2) (sn / 2)
    once = unfold skip_zeros in rw ((==_iff (fn % 2) 0).1 even)

skip_zeros-odd : (fn sn : ℕ) → fn % 2 ≡ 1 → skip_zeros 64 fn sn ≡ ok (fn, sn)
unfolding skip_zeros
skip_zeros-odd fn sn odd = rw even refl
  where
    even : (fn % 2 == 0) ≡ false
    even = ground arith

module _ (sha256 : Digest) where
  -- On the right edge an even node is the only child, and its hash is its parent's.
  pub evaluate_loop-climb :
      (f fn sn : ℕ) (r : HashValue) (proof : Bytes)
      → fn ≡ sn
      → 0 < sn
      → fn < 2 ^ 64
      → fn % 2 ≡ 0
      → evaluate_loop sha256 f fn sn r proof ≡ evaluate_loop sha256 f (fn / 2) (sn / 2) r proof
  unfolding evaluate_loop
  evaluate_loop-climb f fn sn r [] same p h even = ground arith
  evaluate_loop-climb zero fn sn r (b ∷ bs) same p h even = refl
  evaluate_loop-climb (suc f) fn sn r (b ∷ bs) same p h even =
      ground (arith, skip_zeros-climb fn sn)

  -- A hash on the left of an odd node.
  pub evaluate_loop-left :
      (f fn sn : ℕ) (r h : HashValue) (rest : Bytes)
      → length h ≡ hash_size
      → 0 < sn
      → fn % 2 ≡ 1
      → evaluate_loop sha256 (suc f) fn sn r (h ++ rest)
        ≡ evaluate_loop sha256 f (fn / 2) (sn / 2) (hash_node sha256 h r) rest
  unfolding evaluate_loop
  evaluate_loop-left f fn sn r [] rest len p odd = absurd (omega arith)
  evaluate_loop-left f fn sn r (b ∷ bs) rest len p odd = ground (
    arith,
    len,
    length-append (b ∷ bs) rest,
    take-append hash_size (b ∷ bs) rest,
    drop-append hash_size (b ∷ bs) rest,
    skip_zeros-odd fn sn,
  )

  -- A hash on the right of an even node.
  pub evaluate_loop-right :
      (f fn sn : ℕ) (r h : HashValue) (rest : Bytes)
      → length h ≡ hash_size
      → fn < sn
      → fn % 2 ≡ 0
      → evaluate_loop sha256 (suc f) fn sn r (h ++ rest)
        ≡ evaluate_loop sha256 f (fn / 2) (sn / 2) (hash_node sha256 r h) rest
  unfolding evaluate_loop
  evaluate_loop-right f fn sn r [] rest len p even = absurd (omega arith)
  evaluate_loop-right f fn sn r (b ∷ bs) rest len p even = ground (
    arith,
    len,
    length-append (b ∷ bs) rest,
    take-append hash_size (b ∷ bs) rest,
    drop-append hash_size (b ∷ bs) rest,
  )
