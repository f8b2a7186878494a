-- ===== src/Verify/Signed.antt =====
-- The loop over the signatures in `VerifyMTCProof` of demo/verify_proof.go: which cosigners it marks,
-- and which requirements it finds unsatisfied.
use merkle_tree_certs.Prelude.{
  ℕ, List, [], ◌∷◌, All, Any, set, get_elem?, get_elem?-set_cases, true, false, Option, none, some,
  ◌≡◌, refl, sym, ◌⊎◌, inl, inr, Bool-cases,
}
use merkle_tree_certs.Prelude.{
  Outcome, ok, err, panic, stuck, must, lift_err, lift_err-ok, >>=-eq-ok, ok_subst,
}
use merkle_tree_certs.Log.Hash.{Bytes, HashValue, Digest}
use merkle_tree_certs.Config.AnchorId.{id_string}
use merkle_tree_certs.Cryptobyte.{Cryptobyte}
use merkle_tree_certs.Cosign.{KeyLibrary, CosignerPublic}
use merkle_tree_certs.Cosign.Message.{CosignError}
use merkle_tree_certs.Cosign.Sign.{SignatureLibrary, verify_cosignature}
use merkle_tree_certs.Proof.{Certificate, ParsedSignature}
use merkle_tree_certs.Policy.{Policy, PolicyIndex, lookup}
use merkle_tree_certs.Policy.Evaluate.{PolicyResult, satisfied}
use merkle_tree_certs.Verify.{
  Checked, VerifyError, attempt, mark, check_cosigner, check_named, check_signatures,
  unsatisfied_of,
}

must-some :
    {A : Type 0} (m : Option A) (a : A)
    → ◌≡◌ {A = Outcome VerifyError A} (must m) (ok a)
    → m ≡ some a
must-some none a e = cc
must-some (some b) a e = cc

-- Where an attempt left no error, the call succeeded.
attempt-none :
    (m : Outcome CosignError (Unit {0}))
    → ◌≡◌ {A = Outcome VerifyError (Option CosignError)} (attempt m) (ok none)
    → m ≡ ok tt
attempt-none (ok tt) e = refl
attempt-none (err d) e = cc
attempt-none panic e = cc
attempt-none stuck e = cc

-- The marks of what was returned.
returned_marks :
    (c c' : Checked) (i : ℕ)
    → ◌≡◌ {A = Outcome VerifyError Checked} (ok c) (ok c')
    → get_elem? c'.signed i ≡ some true
    → get_elem? c.signed i ≡ some true
returned_marks c c' i same marked =
    ok_subst (λ t. get_elem? t.signed i ≡ some true → get_elem? c.signed i ≡ some true) same
      (λ h. h) marked

-- No requirement is unsatisfied.
pub unsatisfied_of-All :
    (r : PolicyResult) (reqs left : List PolicyIndex)
    → unsatisfied_of r reqs ≡ ok left
    → left ≡ []
    → All (λ idx. satisfied r idx ≡ ok true) reqs
unfolding unsatisfied_of
unsatisfied_of-All r [] left e nothing = tt
unsatisfied_of-All r (idx ∷ reqs) left e nothing =
    let (b, e1, f1) = >>=-eq-ok (lift_err VerifyError.bad_policy (satisfied r idx)) _ e in
    let (rest, e2, f2) = >>=-eq-ok (unsatisfied_of r reqs) _ f1 in
    let held = lift_err-ok VerifyError.bad_policy (satisfied r idx) b e1 in
    elim (Bool-cases b) [
      | inl t ↦
          let same : ◌≡◌ {A = Outcome VerifyError (List PolicyIndex)} (ok rest) (ok left) =
            rw t at f2 in
          (
            rw t at held,
            unsatisfied_of-All r reqs rest e2
                (ok_subst (λ l. l ≡ [] → rest ≡ []) same (λ h. h) nothing),
          )
      | inr f ↦
          let more : ◌≡◌ {A = Outcome VerifyError (List PolicyIndex)} (ok (idx ∷ rest)) (ok left) =
            rw f at f2 in
          cc
    ]

module _ (cb : Cryptobyte) (sha256 : Digest) (keys : KeyLibrary) (lib : SignatureLibrary keys)
    (p : Policy keys Certificate) (log_id : Bytes) (start end : ℕ) (hash : HashValue) where
  -- A signature by the cosigner with index `i` of the policy that was verified.
  abbrev pub Signs : ℕ → ParsedSignature → Type 0
  Signs i sig =
      (idx : PolicyIndex) × (c : CosignerPublic keys) × (lookup (id_string sig.cosigner_id) p.names
        ≡ some idx)
      × (idx.is_group ≡ false)
      × (idx.index ≡ i)
      × (get_elem? p.cosigners i ≡ some c)
      × (verify_cosignature keys lib cb c log_id start end hash sig.signature ≡ ok tt)

  check_cosigner-marks :
      (sig : ParsedSignature) (idx : PolicyIndex) (c c' : Checked) (i : ℕ)
      → lookup (id_string sig.cosigner_id) p.names ≡ some idx
      → idx.is_group ≡ false
      → check_cosigner cb sha256 keys lib p log_id start end hash sig idx.index c ≡ ok c'
      → get_elem? c'.signed i ≡ some true
      → (get_elem? c.signed i ≡ some true) ⊎ Signs i sig
  unfolding check_cosigner
  check_cosigner-marks sig idx c c' i named single e marked =
      let (cosigner, e1, f1) = >>=-eq-ok (must (get_elem? p.cosigners idx.index)) _ e in
      let (failed, e2, f2) =
        >>=-eq-ok
          (attempt (verify_cosignature keys lib cb cosigner log_id start end hash sig.signature)) _
          f1 in
      by_failure failed cosigner (must-some (get_elem? p.cosigners idx.index) cosigner e1) e2 f2
    where
      by_failure :
          (failed : Option CosignError) (cosigner : CosignerPublic keys)
          → get_elem? p.cosigners idx.index ≡ some cosigner
          → ◌≡◌ {A = Outcome VerifyError (Option CosignError)}
              (attempt
                (verify_cosignature keys lib cb cosigner log_id start end hash sig.signature))
              (ok failed)
          → ◌≡◌ {A = Outcome VerifyError Checked}
              (ok (mark sig.cosigner_id idx.index c failed))
              (ok c')
          → (get_elem? c.signed i ≡ some true) ⊎ Signs i sig
      by_failure none cosigner known tried done =
          let now : get_elem? (set c.signed idx.index true) i ≡ some true =
            returned_marks (mark sig.cosigner_id idx.index c none) c' i done marked in
          elim (get_elem?-set_cases c.signed i idx.index true true now) [
            | inl same ↦ inr (
              idx,
              cosigner,
              named,
              single,
              sym same,
              rw same known,
              attempt-none
                  (verify_cosignature keys lib cb cosigner log_id start end hash sig.signature)
                  tried,
            )
            | inr before ↦ inl before
          ]
      by_failure (some d) cosigner known tried done =
          inl (returned_marks (mark sig.cosigner_id idx.index c (some d)) c' i done marked)

  check_named-marks :
      (sig : ParsedSignature) (found : Option PolicyIndex) (c c' : Checked) (i : ℕ)
      → lookup (id_string sig.cosigner_id) p.names ≡ found
      → check_named cb sha256 keys lib p log_id start end hash sig c found ≡ ok c'
      → get_elem? c'.signed i ≡ some true
      → (get_elem? c.signed i ≡ some true) ⊎ Signs i sig
  check_named-marks sig none c c' i named e marked = inl (returned_marks c c' i e marked)
  check_named-marks sig (some idx) c c' i named e marked = elim (Bool-cases idx.is_group) [
    | inl t ↦
        let same : ◌≡◌ {A = Outcome VerifyError Checked} (ok c) (ok c') = rw t at e in
        inl (returned_marks c c' i same marked)
    | inr f ↦ check_cosigner-marks sig idx c c' i named f (rw f at e) marked
  ]

  -- Only cosigners with a verified signature are marked.
  pub check_signatures-marks :
      (sigs : List ParsedSignature) (c c' : Checked) (i : ℕ)
      → check_signatures cb sha256 keys lib p log_id start end hash sigs c ≡ ok c'
      → get_elem? c'.signed i ≡ some true
      → (get_elem? c.signed i ≡ some true) ⊎ Any (Signs i) sigs
  unfolding check_signatures
  check_signatures-marks [] c c' i e marked = inl (returned_marks c c' i e marked)
  check_signatures-marks (sig ∷ sigs) c c' i e marked =
      let (c1, e1, f1) =
        >>=-eq-ok
          (check_named cb sha256 keys lib p log_id start end hash sig c
            (lookup (id_string sig.cosigner_id) p.names))
          _ e in
      elim (check_signatures-marks sigs c1 c' i f1 marked) [
        | inr later ↦ inr (inr later)
        | inl before ↦
            elim (check_named-marks sig (lookup (id_string sig.cosigner_id) p.names) c c1 i refl e1
              before) [ inl earlier ↦ inl earlier | inr here ↦ inr (inl here) ]
      ]
