-- ===== src/Verify.antt =====
-- `VerifyMTCProof` of demo/verify_proof.go. What is written to a digest is a list of bytes, summed
-- at the end. A CA of the policy always has a certificate: only `AddCA` adds one.
pub mod Signed
pub mod Sound
pub mod Elements
pub mod EntryHash
use merkle_tree_certs.Prelude.{
  ℕ, ◌^◌, ◌/◌, ◌%◌, bit_and, ◌-◌, List, [], ◌∷◌, ◌++◌, length, replicate, set, get_elem?, ltb, leb,
  ◌==◌, Bool, true, false, not, ◌&&◌, if◌then◌else◌, Option, none, some, bytes_eq,
}
use merkle_tree_certs.Prelude.{
  Outcome, ok, err, panic, stuck, lift_err, found, check, must, ◌>>=◌, ◌>>◌,
}
use merkle_tree_certs.Log.Hash.{Bytes, HashValue, Digest}
use merkle_tree_certs.Log.Subtree.{LogError}
use merkle_tree_certs.Log.Inclusion.{evaluate_subtree_inclusion_proof}
use merkle_tree_certs.Config.Version.{DraftVersion}
use merkle_tree_certs.Config.AnchorId.{id_string, log_id}
use merkle_tree_certs.Cryptobyte.{Cryptobyte, Tag}
use merkle_tree_certs.Cosign.{KeyLibrary, PolicyError}
use merkle_tree_certs.Cosign.Message.{CosignError}
use merkle_tree_certs.Cosign.Sign.{SignatureLibrary, verify_cosignature}
use merkle_tree_certs.Encode.{add_mtc_proof_sig_alg}
use merkle_tree_certs.Encode.Entry.{entry_type_tbs_cert}
use merkle_tree_certs.Proof.{
  Certificate, ParsedProof, ParsedSignature, ProofError, bytes_or_panic, parse_mtc_proof,
}
use merkle_tree_certs.Policy.{
  Policy, PolicyIndex, TrustedCa, RevokedRange, lookup, find_trusted_subtree,
}
use merkle_tree_certs.Policy.AddCa.{NameError, ca_id_from_x509_name}
use merkle_tree_certs.Policy.Evaluate.{PolicyResult, satisfied, evaluate_groups}

pub record VerifyResult : Type 0 where
  pub trusted_subtree : Bool
  pub verify_errors : List (Bytes × CosignError)
  pub policy_result : PolicyResult
  pub unsatisfied_requirements : List PolicyIndex

-- With the error on requirements, the result is returned too.
pub data VerifyError : Type 0 where
  bad_issuer : NameError → VerifyError
  bad_proof : ProofError → VerifyError
  bad_inclusion : LogError → VerifyError
  unknown_issuer malformed_tbs revoked log_zero hash_mismatch : VerifyError
  bad_policy : PolicyError → VerifyError
  unsatisfied : VerifyResult → VerifyError

abbrev pub hash_u16 : ℕ → Bytes
hash_u16 v = (v / 2 ^ 8 % 2 ^ 8) ∷ (v % 2 ^ 8) ∷ []

abbrev pub hash_u16_length_prefixed : Bytes → Outcome VerifyError Bytes
hash_u16_length_prefixed inp =
    if ltb (2 ^ 16 - 1) (length inp) then panic else ok (hash_u16 (length inp) ++ inp)

unfoldable pub is_revoked : List RevokedRange → ℕ → Bool
is_revoked [] serial = false
is_revoked (r ∷ rs) serial =
    let others = is_revoked rs serial in
    if leb r.min_serial serial && leb serial r.max_serial then true else others

-- What the loop over the signatures has found so far.
pub record Checked : Type 0 where
  pub signed : List Bool
  pub errors : List (Bytes × CosignError)

-- A call whose error is kept and does not end the caller.
abbrev pub attempt {ℓ κ} : {E : Type ℓ} {F : Type κ} → Outcome E (Unit {0}) → Outcome F (Option E)
attempt (ok tt) = ok none
attempt (err e) = ok (some e)
attempt panic = panic
attempt stuck = stuck

abbrev pub mark : Bytes → ℕ → Checked → Option CosignError → Checked
mark id i c none = record { signed = set c.signed i true; errors = c.errors }
mark id i c (some e) = record { signed = c.signed; errors = c.errors ++ ((id, e) ∷ []) }

unfoldable pub unsatisfied_of :
    PolicyResult → List PolicyIndex → Outcome VerifyError (List PolicyIndex)
unsatisfied_of r [] = ok []
unsatisfied_of r (idx ∷ reqs) = do
  holds ← lift_err VerifyError.bad_policy (satisfied r idx)
  rest ← unsatisfied_of r reqs
  ok (if holds then rest else idx ∷ rest)

abbrev none_marked : PolicyResult
none_marked = record { cosigners = []; groups = [] }

module _ (cb : Cryptobyte) (sha256 : Digest) where
  -- The optional version of a TBSCertificate.
  abbrev pub hash_version : Bytes → Outcome VerifyError (Bytes × Bytes)
  hash_version tbs =
      if cb.peek_tag (Tag.constructed 0) tbs
      then found VerifyError.malformed_tbs (cb.read_asn1_element (Tag.constructed 0) tbs)
      else ok ([], tbs)

  -- The serial number, and what is hashed of a TBSCertificate and its public key.
  unfoldable pub hash_tbs : DraftVersion → Certificate → Outcome VerifyError (ℕ × Bytes)
  hash_tbs version cert = do
    (tbs, left) ←
        found VerifyError.malformed_tbs (cb.read_asn1 Tag.sequence cert.raw_tbs_certificate)
    check (length left == 0) VerifyError.malformed_tbs
    (vers, s1) ← hash_version tbs
    (serial, s2) ← found VerifyError.malformed_tbs (cb.read_uint64_integer s1)
    (alg, s3) ← found VerifyError.malformed_tbs (cb.read_asn1_element Tag.sequence s2)
    want ← bytes_or_panic (add_mtc_proof_sig_alg cb version)
    check (bytes_eq alg want) VerifyError.malformed_tbs
    (issuer, s4) ← found VerifyError.malformed_tbs (cb.read_asn1_element Tag.sequence s3)
    (validity, s5) ← found VerifyError.malformed_tbs (cb.read_asn1_element Tag.sequence s4)
    (subject, s6) ← found VerifyError.malformed_tbs (cb.read_asn1_element Tag.sequence s5)
    (spki, s7) ← found VerifyError.malformed_tbs (cb.read_asn1 Tag.sequence s6)
    (spki_alg, _) ← found VerifyError.malformed_tbs (cb.read_asn1_element Tag.sequence spki)
    ok (
      serial,
      vers
          ++ (issuer
              ++ (validity
                  ++ (subject
                      ++ (spki_alg
                          ++ ((4 ∷ 32 ∷ [])
                              ++ (sha256.sum cert.raw_subject_public_key_info ++ s7)))))),
    )

  -- The serial number and the hash of the log entry.
  unfoldable pub entry_hash :
      DraftVersion → Certificate → Bytes → Outcome VerifyError (ℕ × HashValue)
  entry_hash version cert exts_raw = do
    exts ← hash_u16_length_prefixed exts_raw
    (serial, contents) ← hash_tbs version cert
    ok (serial, sha256.sum (0 ∷ (exts ++ (hash_u16 entry_type_tbs_cert ++ contents))))

  module _ (keys : KeyLibrary) (lib : SignatureLibrary keys) (p : Policy keys Certificate) where
    -- One round of the loop over the signatures, for a cosigner of the policy.
    unfoldable pub check_cosigner :
        Bytes → ℕ → ℕ → HashValue → ParsedSignature → ℕ → Checked → Outcome VerifyError Checked
    check_cosigner log_id start end hash sig i c = do
      cosigner ← must (get_elem? p.cosigners i)
      failed ← attempt (verify_cosignature keys lib cb cosigner log_id start end hash sig.signature)
      ok (mark sig.cosigner_id i c failed)

    -- Unknown cosigners and groups are passed over.
    abbrev pub check_named :
        Bytes
        → ℕ
        → ℕ
        → HashValue
        → ParsedSignature
        → Checked
        → Option PolicyIndex
        → Outcome VerifyError Checked
    check_named log_id start end hash sig c none = ok c
    check_named log_id start end hash sig c (some idx) =
        if idx.is_group then ok c else check_cosigner log_id start end hash sig idx.index c

    unfoldable pub check_signatures :
        Bytes → ℕ → ℕ → HashValue → List ParsedSignature → Checked → Outcome VerifyError Checked
    check_signatures log_id start end hash [] c = ok c
    check_signatures log_id start end hash (sig ∷ sigs) c = do
      c' ← check_named log_id start end hash sig c (lookup (id_string sig.cosigner_id) p.names)
      check_signatures log_id start end hash sigs c'

    -- From the loop over the signatures to the end.
    unfoldable pub check_policy :
        TrustedCa Certificate → Bytes → ParsedProof → HashValue → Outcome VerifyError VerifyResult
    check_policy ca log_id proof hash = do
      let unmarked : Checked = record { signed = replicate (length p.cosigners) false; errors = [] }
      c ← check_signatures log_id proof.start proof.end hash proof.signatures unmarked
      result ← lift_err VerifyError.bad_policy (evaluate_groups p.groups c.signed)
      let ca_index : PolicyIndex = record { is_group = false; index = ca.cosigner_index }
      own ← unsatisfied_of result (ca_index ∷ ca.requirements)
      for_all ← unsatisfied_of result p.requirements_for_all_cas
      let ret : VerifyResult = record {
        trusted_subtree = false;
        verify_errors = c.errors;
        policy_result = result;
        unsatisfied_requirements = own ++ for_all;
      }
      check (length (own ++ for_all) == 0) (VerifyError.unsatisfied ret)
      ok ret

    -- A trusted subtree is compared, and makes signatures unnecessary.
    abbrev pub check_expected :
        TrustedCa Certificate
        → Bytes
        → ParsedProof
        → HashValue
        → Option HashValue
        → Outcome VerifyError VerifyResult
    check_expected ca log_id proof hash none = check_policy ca log_id proof hash
    check_expected ca log_id proof hash (some expected) = do
      check (bytes_eq expected hash) VerifyError.hash_mismatch
      ok (record {
        trusted_subtree = true;
        verify_errors = [];
        policy_result = none_marked;
        unsatisfied_requirements = [];
      })

    unfoldable pub verify_mtc_proof : Certificate → Outcome VerifyError VerifyResult
    verify_mtc_proof cert = do
      ca_id ← lift_err VerifyError.bad_issuer (ca_id_from_x509_name cb p.version cert.raw_issuer)
      ca ← found VerifyError.unknown_issuer (lookup (id_string ca_id) p.cas)
      proof ← lift_err VerifyError.bad_proof (parse_mtc_proof cb p.version cert)
      (serial, hash) ← entry_hash p.version cert proof.entry_exts_raw
      check (not (is_revoked ca.revoked_ranges serial)) VerifyError.revoked
      let index = bit_and serial (2 ^ 48 - 1)
      let log = serial / 2 ^ 48 % 2 ^ 16
      check (not (log == 0)) VerifyError.log_zero
      subtree ← lift_err VerifyError.bad_inclusion (
          evaluate_subtree_inclusion_proof sha256 index proof.start proof.end hash
            proof.inclusion_proof)
      check_expected ca (log_id p.version ca_id log) proof subtree
          (find_trusted_subtree ca.trusted_subtrees log proof.start proof.end)
