-- ===== src/Verify/Sound.antt =====
-- What `VerifyMTCProof` of demo/verify_proof.go has checked of a certificate that it accepts.
use merkle_tree_certs.Prelude.{
  ℕ, ◌-◌, ◌/◌, ◌%◌, ◌^◌, ◌≤◌, bit_and, List, [], ◌∷◌, ◌++◌, length, All, Any, replicate, get_elem?,
  get_elem?-replicate, append-nothing, Bool, true, false, not, leb, ◌==◌, ==_iff, ◌&&◌, Option,
  none, some, ◌≡◌, ◌≢◌, ap, ◌⊎◌, inl, inr, Bool-cases, arith, bytes_eq, bytes_eq→≡,
}
use merkle_tree_certs.Prelude.{
  ok, found, found-some, check, passed, lift_err, lift_err-ok, >>=-eq-ok,
}
use merkle_tree_certs.Log.Hash.{Bytes, HashValue, Digest}
use merkle_tree_certs.Log.Inclusion.{evaluate_subtree_inclusion_proof}
use merkle_tree_certs.Config.AnchorId.{id_string, log_id}
use merkle_tree_certs.Cryptobyte.{Cryptobyte}
use merkle_tree_certs.Cosign.{KeyLibrary}
use merkle_tree_certs.Cosign.Sign.{SignatureLibrary}
use merkle_tree_certs.Proof.{Certificate, ParsedProof, parse_mtc_proof}
use merkle_tree_certs.Policy.{
  Policy, PolicyIndex, RevokedRange, TrustedCa, lookup, find_trusted_subtree,
}
use merkle_tree_certs.Policy.AddCa.{ca_id_from_x509_name}
use merkle_tree_certs.Policy.Evaluate.{PolicyResult, satisfied, evaluate_groups}
use merkle_tree_certs.Verify.{
  Checked, VerifyError, VerifyResult, is_revoked, check_signatures, check_policy, check_expected,
  entry_hash, unsatisfied_of, verify_mtc_proof,
}
use merkle_tree_certs.Verify.Signed.{Signs, check_signatures-marks, unsatisfied_of-All}

-- A serial number in no revoked range.
abbrev pub IsCurrent : List RevokedRange → ℕ → Type 0
IsCurrent ranges serial =
    All (λ (r : RevokedRange). ¬ ((r.min_serial ≤ serial) × (serial ≤ r.max_serial))) ranges

is_revoked-false :
    (ranges : List RevokedRange) (serial : ℕ)
    → not (is_revoked ranges serial) ≡ true
    → IsCurrent ranges serial
unfolding is_revoked
is_revoked-false [] serial e = tt
is_revoked-false (r ∷ rs) serial e =
    elim (Bool-cases (leb r.min_serial serial && leb serial r.max_serial)) [
      | inl t ↦ let bad : false ≡ true = rw t at e in cc
      | inr f ↦ (ground arith, is_revoked-false rs serial (rw f at e))
    ]

module _ (cb : Cryptobyte) (sha256 : Digest) (keys : KeyLibrary) (lib : SignatureLibrary keys)
    (p : Policy keys Certificate) where
  -- Cosigners signed the subtree so that the CA's own cosigner, the requirements on the CA and those
  -- on all CAs hold.
  pub record IsCosigned (ca : TrustedCa Certificate) (log_id : Bytes) (proof : ParsedProof)
      (subtree : HashValue) : Type 0 where
    pub signed : List Bool
    pub result : PolicyResult
    pub by_cosigners :
        (i : ℕ)
        → get_elem? signed i ≡ some true
        → Any (Signs cb sha256 keys lib p log_id proof.start proof.end subtree i) proof.signatures
    pub evaluated : evaluate_groups p.groups signed ≡ ok result
    pub by_ca : satisfied result (record { is_group = false; index = ca.cosigner_index }) ≡ ok true
    pub for_ca : All (λ idx. satisfied result idx ≡ ok true) ca.requirements
    pub for_all : All (λ idx. satisfied result idx ≡ ok true) p.requirements_for_all_cas

  check_policy-IsCosigned :
      (ca : TrustedCa Certificate) (log : Bytes) (proof : ParsedProof) (subtree : HashValue)
      (r : VerifyResult)
      → check_policy cb sha256 keys lib p ca log proof subtree ≡ ok r
      → IsCosigned ca log proof subtree
  unfolding check_policy unsatisfied_of
  check_policy-IsCosigned ca log proof subtree r e =
      let unmarked : Checked = record {
        signed = replicate (length p.cosigners) false;
        errors = [];
      } in
      let ca_index : PolicyIndex = record { is_group = false; index = ca.cosigner_index } in
      let (c, e1, f1) =
        >>=-eq-ok
          (check_signatures cb sha256 keys lib p log proof.start proof.end subtree proof.signatures
            unmarked)
          _ e in
      let (result, e2, f2) =
        >>=-eq-ok (lift_err VerifyError.bad_policy (evaluate_groups p.groups c.signed)) _ f1 in
      let (own, e3, f3) = >>=-eq-ok (unsatisfied_of result (ca_index ∷ ca.requirements)) _ f2 in
      let (rest, e4, f4) = >>=-eq-ok (unsatisfied_of result p.requirements_for_all_cas) _ f3 in
      let ret : VerifyResult = record {
        trusted_subtree = false;
        verify_errors = c.errors;
        policy_result = result;
        unsatisfied_requirements = own ++ rest;
      } in
      let (u, e5, f5) =
        >>=-eq-ok (check (length (own ++ rest) == 0) (VerifyError.unsatisfied ret)) _ f4 in
      let none_left =
        (==_iff (length (own ++ rest)) 0).0
          (passed (length (own ++ rest) == 0) (VerifyError.unsatisfied ret) e5) in
      let (no_own, no_rest) = append-nothing own rest none_left in
      let (by_ca, for_ca) = unsatisfied_of-All result (ca_index ∷ ca.requirements) own e3 no_own in
      record {
        signed = c.signed;
        result = result;
        by_cosigners = λ i marked.
            elim (check_signatures-marks cb sha256 keys lib p log proof.start proof.end subtree
              proof.signatures unmarked c i e1 marked) [
                | inl before ↦
                    absurd
                      (contradiction (get_elem?-replicate (length p.cosigners) i false true before))
                | inr signs ↦ signs
              ];
        evaluated =
            lift_err-ok VerifyError.bad_policy (evaluate_groups p.groups c.signed) result e2;
        by_ca = by_ca;
        for_ca = for_ca;
        for_all = unsatisfied_of-All result p.requirements_for_all_cas rest e4 no_rest;
      }
    where
      contradiction : false ≡ true → ⊥
      contradiction e = cc

  check_expected-cases :
      (ca : TrustedCa Certificate) (id : Bytes) (proof : ParsedProof) (subtree : HashValue)
      (expected : Option HashValue) (r : VerifyResult)
      → check_expected cb sha256 keys lib p ca id proof subtree expected ≡ ok r
      → (expected ≡ some subtree) ⊎ IsCosigned ca id proof subtree
  check_expected-cases ca id proof subtree none r e =
      inr (check_policy-IsCosigned ca id proof subtree r e)
  check_expected-cases ca id proof subtree (some expected) r e =
      let (u, e1, _) =
        >>=-eq-ok (check (bytes_eq expected subtree) VerifyError.hash_mismatch) _ e in
      inl (
        ap some (
          bytes_eq→≡ expected subtree
            (passed (bytes_eq expected subtree) VerifyError.hash_mismatch e1)))

  -- What was checked of a certificate.
  pub record IsAccepted (cert : Certificate) : Type 0 where
    pub ca_id : Bytes
    pub ca : TrustedCa Certificate
    pub proof : ParsedProof
    pub serial : ℕ
    pub entry : HashValue
    pub subtree : HashValue
    pub issuer : ca_id_from_x509_name cb p.version cert.raw_issuer ≡ ok ca_id
    pub known : lookup (id_string ca_id) p.cas ≡ some ca
    pub parsed : parse_mtc_proof cb p.version cert ≡ ok proof
    pub hashed : entry_hash cb sha256 p.version cert proof.entry_exts_raw ≡ ok (serial, entry)
    pub current : IsCurrent ca.revoked_ranges serial
    pub numbered : serial / 2 ^ 48 % 2 ^ 16 ≢ 0
    pub included :
        evaluate_subtree_inclusion_proof sha256
          (bit_and serial (2 ^ 48 - 1))
          proof.start
          proof.end
          entry
          proof.inclusion_proof
        ≡ ok subtree
    pub trusted :
        (find_trusted_subtree ca.trusted_subtrees (serial / 2 ^ 48 % 2 ^ 16) proof.start proof.end
          ≡ some subtree)
        ⊎ IsCosigned ca (log_id p.version ca_id (serial / 2 ^ 48 % 2 ^ 16)) proof subtree

  -- A certificate that `VerifyMTCProof` accepts has the ID of a CA of the policy for its issuer, and
  -- a proof that parses. Its serial number is in no revoked range of the CA and has a log number
  -- other than 0. The inclusion proof turns the hash of its log entry into the hash of the proof's
  -- subtree, and either the policy trusts this subtree of the log with this hash, or cosigners of
  -- the policy whose signatures on it verify satisfy the CA's own cosigner, every requirement on the
  -- CA and every requirement on all CAs.
  pub verify_mtc_proof-IsAccepted :
      (cert : Certificate) (r : VerifyResult)
      → verify_mtc_proof cb sha256 keys lib p cert ≡ ok r
      → IsAccepted cert
  unfolding verify_mtc_proof
  verify_mtc_proof-IsAccepted cert r e =
      let (id, e1, f1) =
        >>=-eq-ok
          (lift_err VerifyError.bad_issuer (ca_id_from_x509_name cb p.version cert.raw_issuer)) _
          e in
      let (ca, e2, f2) =
        >>=-eq-ok (found VerifyError.unknown_issuer (lookup (id_string id) p.cas)) _ f1 in
      let (proof, e3, f3) =
        >>=-eq-ok (lift_err VerifyError.bad_proof (parse_mtc_proof cb p.version cert)) _ f2 in
      let ((serial, entry), e4, f4) =
        >>=-eq-ok (entry_hash cb sha256 p.version cert proof.entry_exts_raw) _ f3 in
      let (u, e5, f5) =
        >>=-eq-ok (check (not (is_revoked ca.revoked_ranges serial)) VerifyError.revoked) _ f4 in
      let log = serial / 2 ^ 48 % 2 ^ 16 in
      let (v, e6, f6) = >>=-eq-ok (check (not (log == 0)) VerifyError.log_zero) _ f5 in
      let included =
        evaluate_subtree_inclusion_proof sha256 (bit_and serial (2 ^ 48 - 1)) proof.start proof.end
          entry proof.inclusion_proof in
      let (subtree, e7, f7) = >>=-eq-ok (lift_err VerifyError.bad_inclusion included) _ f6 in
      record {
        ca_id = id;
        ca = ca;
        proof = proof;
        serial = serial;
        entry = entry;
        subtree = subtree;
        issuer =
            lift_err-ok VerifyError.bad_issuer (ca_id_from_x509_name cb p.version cert.raw_issuer)
              id e1;
        known = found-some VerifyError.unknown_issuer (lookup (id_string id) p.cas) ca e2;
        parsed = lift_err-ok VerifyError.bad_proof (parse_mtc_proof cb p.version cert) proof e3;
        hashed = e4;
        current =
            is_revoked-false ca.revoked_ranges serial
              (passed (not (is_revoked ca.revoked_ranges serial)) VerifyError.revoked e5);
        numbered = nonzero log (passed (not (log == 0)) VerifyError.log_zero e6);
        included = lift_err-ok VerifyError.bad_inclusion included subtree e7;
        trusted =
            check_expected-cases ca (log_id p.version id log) proof subtree
              (find_trusted_subtree ca.trusted_subtrees log proof.start proof.end) r f7;
      }
    where
      nonzero : (n : ℕ) → not (n == 0) ≡ true → n ≢ 0
      nonzero n e = ground arith
