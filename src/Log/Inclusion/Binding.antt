-- ===== src/Log/Inclusion/Binding.antt =====
-- `EvaluateSubtreeInclusionProof` of demo/log.go on two entry hashes and two proofs.
use native.Mathlib.Decide.{ℕ_discrete}
use mathlib.Core.Path.{ap₂}
use merkle_tree_certs.Prelude.{ℕ, zero, suc, ◌-◌, ◌/◌, ◌%◌, ◌≤◌, ◌<◌, ◌≡◌, ◌≢◌, refl, sym, ap, ◌∙◌}
use merkle_tree_certs.Prelude.{arith, inl, inr, ◌⊎◌, Bool, true, false, ◌==◌, ◌||◌, if◌then◌else◌}
use merkle_tree_certs.Prelude.{
  [], ◌∷◌, ◌++◌, length, take, drop, take-append, drop-append, take-append-drop, length-take,
}
use merkle_tree_certs.Prelude.{Outcome, ok, ◌>>=◌, >>=-eq-ok}
use merkle_tree_certs.Log.Hash.{Bytes, HashValue, Digest, hash_size, hash_node, length-hash_node}
use merkle_tree_certs.Log.Subtree.{LogError}
use merkle_tree_certs.Log.Inclusion.{skip_zeros, evaluate_loop, evaluate_subtree_inclusion_proof}

-- Two inputs with one digest.
abbrev pub Collision : Digest → Type 0
Collision sha256 = (x y : Bytes) × (x ≢ y) × (sha256.sum x ≡ sha256.sum y)

bytes_discrete : Discrete Bytes
bytes_discrete = hlevel ℕ_discrete

-- The side on which a round puts the hash it takes, and the state it leaves.
next_state : ℕ → ℕ → Outcome LogError (Bool × ℕ × ℕ)
next_state fn sn =
    if fn % 2 == 1 || fn == sn
    then (do (fn', sn') ← skip_zeros 64 fn sn; ok (true, fn' / 2, sn' / 2))
    else ok (false, fn / 2, sn / 2)

module _ (sha256 : Digest) where
  join : Bool → HashValue → HashValue → HashValue
  join left p r = if left then hash_node sha256 p r else hash_node sha256 r p

  length-join : (left : Bool) (p r : HashValue) → length (join left p r) ≡ hash_size
  unfolding join
  length-join true p r = length-hash_node sha256 p r
  length-join false p r = length-hash_node sha256 r p

  record Took (f fn sn : ℕ) (r : HashValue) (proof : Bytes) (h : HashValue) : Type 0 where
    enough : hash_size ≤ length proof
    not_done : 0 < sn
    left : Bool
    fn' : ℕ
    sn' : ℕ
    state : next_state fn sn ≡ ok (left, fn', sn')
    goes_on :
        evaluate_loop sha256 f fn' sn' (join left (take hash_size proof) r) (drop hash_size proof)
        ≡ ok h

  -- A round that does not fail.
  module _ (f fn sn : ℕ) (r : HashValue) (b : ℕ) (bs : Bytes) where
    whole_hash :
        (h : HashValue)
        → evaluate_loop sha256 (suc f) fn sn r (b ∷ bs) ≡ ok h
        → (hash_size ≤ length (b ∷ bs)) × (0 < sn)
    unfolding evaluate_loop
    whole_hash h e = (ground arith, ground arith)

    evaluate_loop_next :
        hash_size ≤ length (b ∷ bs)
        → 0 < sn
        → evaluate_loop sha256 (suc f) fn sn r (b ∷ bs) ≡ (
            next_state fn sn >>= λ s.
            evaluate_loop sha256 f s.1 s.2
              (join s.0 (take hash_size (b ∷ bs)) r)
              (drop hash_size (b ∷ bs)))
    unfolding evaluate_loop next_state join
    evaluate_loop_next enough pos = ground arith

    evaluate_loop-Took :
        (h : HashValue)
        → evaluate_loop sha256 (suc f) fn sn r (b ∷ bs) ≡ ok h
        → Took f fn sn r (b ∷ bs) h
    evaluate_loop-Took h e =
        let (enough, pos) = whole_hash h e in
        let ((left, fn', sn'), es, rest) =
          >>=-eq-ok (next_state fn sn) _ (sym (evaluate_loop_next enough pos) ∙ e) in
        record {
          enough = enough;
          not_done = pos;
          left = left;
          fn' = fn';
          sn' = sn';
          state = es;
          goes_on = rest;
        }

  -- The inputs of a node begin with a hash of known length, so they determine both hashes.
  hash_node-injective :
      (p r q s : HashValue)
      → length p ≡ hash_size
      → length q ≡ hash_size
      → hash_node sha256 p r ≡ hash_node sha256 q s
      → ((p ≡ q) × (r ≡ s)) ⊎ Collision sha256
  unfolding hash_node
  hash_node-injective p r q s lp lq e = elim (bytes_discrete (1 ∷ (p ++ r)) (1 ∷ (q ++ s))) [
    | no differ ↦ inr (1 ∷ (p ++ r), 1 ∷ (q ++ s), differ, e)
    | yes same ↦
        let tails : p ++ r ≡ q ++ s = ap (drop 1) same in
        inl (
          sym (take-append hash_size p r lp)
              ∙ ap (take hash_size) tails
              ∙ take-append hash_size q s lq,
          sym (drop-append hash_size p r lp)
              ∙ ap (drop hash_size) tails
              ∙ drop-append hash_size q s lq,
        )
  ]

  join-injective :
      (left : Bool) (p r q s : HashValue)
      → length p ≡ hash_size
      → length q ≡ hash_size
      → length r ≡ hash_size
      → length s ≡ hash_size
      → join left p r ≡ join left q s
      → ((p ≡ q) × (r ≡ s)) ⊎ Collision sha256
  unfolding join
  join-injective true p r q s lp lq lr ls e = hash_node-injective p r q s lp lq e
  join-injective false p r q s lp lq lr ls e = elim (hash_node-injective r p s q lr ls e) [
    | inl (a, b) ↦ inl (b, a)
    | inr c ↦ inr c
  ]

  stopped :
      (f fn sn : ℕ) (r h : HashValue)
      → evaluate_loop sha256 f fn sn r [] ≡ ok h
      → (sn ≡ 0) × (r ≡ h)
  unfolding evaluate_loop
  stopped zero fn sn r h e = ground arith
  stopped (suc f) fn sn r h e = ground arith

  not_out_of_fuel :
      (fn sn : ℕ) (r h : HashValue) (b : ℕ) (bs : Bytes)
      → evaluate_loop sha256 zero fn sn r (b ∷ bs) ≢ ok h
  unfolding evaluate_loop
  not_out_of_fuel fn sn r h b bs e = cc

  -- Two rounds from one state put their hashes on one side.
  Took-state :
      (f fn sn : ℕ) (r : HashValue) (proof : Bytes) (h : HashValue)
      → Took f fn sn r proof h
      → (left : Bool) (fn' sn' : ℕ) → next_state fn sn ≡ ok (left, fn', sn')
      → evaluate_loop sha256 f fn' sn' (join left (take hash_size proof) r) (drop hash_size proof)
        ≡ ok h
  Took-state f fn sn r proof h t left fn' sn' e =
      let same : left ≡ t.left = cc (e, t.state) in
      let same_fn : fn' ≡ t.fn' = cc (e, t.state) in
      let same_sn : sn' ≡ t.sn' = cc (e, t.state) in rw (same, same_fn, same_sn) t.goes_on

  -- One result from two runs of the loop: the same hash and proof, or a collision.
  evaluate_loop-binding :
      (f g fn sn : ℕ) (r s h : HashValue) (p q : Bytes)
      → length r ≡ hash_size
      → length s ≡ hash_size
      → evaluate_loop sha256 f fn sn r p ≡ ok h
      → evaluate_loop sha256 g fn sn s q ≡ ok h
      → ((r ≡ s) × (p ≡ q)) ⊎ Collision sha256
  evaluate_loop-binding f g fn sn r s h [] [] lr ls e d =
      inl ((stopped f fn sn r h e).1 ∙ sym (stopped g fn sn s h d).1, refl)
  evaluate_loop-binding zero g fn sn r s h (b ∷ bs) q lr ls e d =
      absurd (not_out_of_fuel fn sn r h b bs e)
  evaluate_loop-binding f zero fn sn r s h [] (c ∷ cs) lr ls e d =
      absurd (not_out_of_fuel fn sn s h c cs d)
  evaluate_loop-binding (suc f) zero fn sn r s h (b ∷ bs) (c ∷ cs) lr ls e d =
      absurd (not_out_of_fuel fn sn s h c cs d)
  evaluate_loop-binding f (suc g) fn sn r s h [] (c ∷ cs) lr ls e d =
      absurd
        (omega (arith, (stopped f fn sn r h e).0, (evaluate_loop-Took g fn sn s c cs h d).not_done))
  evaluate_loop-binding (suc f) g fn sn r s h (b ∷ bs) [] lr ls e d =
      absurd
        (omega (arith, (stopped g fn sn s h d).0, (evaluate_loop-Took f fn sn r b bs h e).not_done))
  evaluate_loop-binding (suc f) (suc g) fn sn r s h (b ∷ bs) (c ∷ cs) lr ls e d =
      let t = evaluate_loop-Took f fn sn r b bs h e in
      let u = evaluate_loop-Took g fn sn s c cs h d in
      let p = take hash_size (b ∷ bs) in
      let q = take hash_size (c ∷ cs) in
      let goes = Took-state g fn sn s (c ∷ cs) h u t.left t.fn' t.sn' t.state in
      elim (evaluate_loop-binding f g t.fn' t.sn' (join t.left p r) (join t.left q s) h
        (drop hash_size (b ∷ bs)) (drop hash_size (c ∷ cs)) (length-join t.left p r)
        (length-join t.left q s) t.goes_on goes) [
          | inr collision ↦ inr collision
          | inl (heads, rests) ↦
              elim (join-injective t.left p r q s
                (omega (arith, length-take hash_size (b ∷ bs), t.enough))
                (omega (arith, length-take hash_size (c ∷ cs), u.enough)) lr ls heads) [
                  | inr collision ↦ inr collision
                  | inl (hashes, entries) ↦ inl (
                    entries,
                    sym (take-append-drop hash_size (b ∷ bs))
                        ∙ ap₂ ◌++◌ hashes rests
                        ∙ take-append-drop hash_size (c ∷ cs),
                  )
                ]
        ]

  -- What passes the checks is what the loop returns.
  past_checks :
      (index start end : ℕ) (t h : HashValue) (proof : Bytes)
      → evaluate_subtree_inclusion_proof sha256 index start end t proof ≡ ok h
      → evaluate_loop sha256 (length proof) (index - start) (end - start - 1) t proof ≡ ok h
  unfolding evaluate_subtree_inclusion_proof
  past_checks index start end t h proof e = ground arith

  -- Whatever the proofs, two entry hashes of the digest's length that
  -- `EvaluateSubtreeInclusionProof` takes to one hash, at one index of one subtree, are equal, and
  -- so are their proofs, or there is a collision of the digest.
  pub evaluate_subtree_inclusion_proof-binding :
      (index start end : ℕ) (r s h : HashValue) (p q : Bytes)
      → length r ≡ hash_size
      → length s ≡ hash_size
      → evaluate_subtree_inclusion_proof sha256 index start end r p ≡ ok h
      → evaluate_subtree_inclusion_proof sha256 index start end s q ≡ ok h
      → ((r ≡ s) × (p ≡ q)) ⊎ Collision sha256
  evaluate_subtree_inclusion_proof-binding index start end r s h p q lr ls e d =
      evaluate_loop-binding (length p) (length q) (index - start) (end - start - 1) r s h p q lr ls
        (past_checks index start end r h p e) (past_checks index start end s h q d)
