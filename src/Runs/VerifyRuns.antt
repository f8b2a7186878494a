-- ===== src/Runs/VerifyRuns.antt =====
-- A certificate that the verifier accepts, and the theorems of demo/verify_proof.go at it.
use merkle_tree_certs.Prelude.{
  ℕ, ◌^◌, ◌≡◌, refl, [], ◌∷◌, ◌++◌, length, true, false, some, bytes_eq, Outcome, ok, err, panic,
  stuck, IsReturn,
}
use merkle_tree_certs.Log.Hash.{Bytes}
use merkle_tree_certs.Log.Subtree.{is_valid_subtree}
use merkle_tree_certs.Log.Inclusion.{evaluate_subtree_inclusion_proof, evaluate_loop}
use merkle_tree_certs.Bits.{len64, big_endian}
use merkle_tree_certs.Config.Version.{version_plants07}
use merkle_tree_certs.Config.Algorithm.{ed25519}
use merkle_tree_certs.Config.Base128.{
  parse_loop, parse_base128, append_base128, append_loop, base128_length, count_bytes,
}
use merkle_tree_certs.Config.AnchorId.{id_string, string_loop, format_decimal, log_id}
use merkle_tree_certs.Encode.{add_mtc_proof_sig_alg, add_x509_name, add_x509_v3_version}
use merkle_tree_certs.Cosign.{KeyKind, PolicyError, new_cosigner_public}
use merkle_tree_certs.Cosign.Message.{tlog_origin, named_header, cosigned_message}
use merkle_tree_certs.Cosign.Sign.{SignatureLibrary, verify_cosignature}
use merkle_tree_certs.Policy.{Policy, register_ca, add_cosigner, find_trusted_subtree}
use merkle_tree_certs.Policy.AddCa.{parse_single_attribute_x509_name, ca_id_from_x509_name}
use merkle_tree_certs.Policy.Build.{empty_policy}
use merkle_tree_certs.Policy.Evaluate.{evaluate_groups, groups_loop}
use merkle_tree_certs.Proof.{
  Certificate, read_extensions, read_signatures, parse_signature, cert_signature_bytes,
  parse_mtc_proof,
}
use merkle_tree_certs.Proof.Ordered.{IsCanonical, parse_mtc_proof-IsCanonical}
use merkle_tree_certs.Proof.Returns.{parse_mtc_proof-IsReturn}
use merkle_tree_certs.Proof.RoundTrip.{proof_of}
use merkle_tree_certs.Verify.{
  VerifyResult, is_revoked, unsatisfied_of, hash_tbs, entry_hash, check_cosigner, check_signatures,
  check_policy, verify_mtc_proof,
}
use merkle_tree_certs.Verify.Sound.{IsAccepted, verify_mtc_proof-IsAccepted}
use merkle_tree_certs.Runs.LogRuns.{toy}
use merkle_tree_certs.Runs.PolicyRuns.{toy_keys}
use merkle_tree_certs.Runs.ToyBytes.{toy_bytes, toy_bytes-IsCryptobyte}
use merkle_tree_certs.Runs.ToyNumbers.{read_number}
use merkle_tree_certs.Runs.ProofRuns.{bytes_of, body, exts, parsed_exts, signed}

-- Every signature is the byte 42.
abbrev pub toy_signatures : SignatureLibrary toy_keys
toy_signatures = record {
  ed25519_verify = λ key inp sig. bytes_eq sig (42 ∷ []);
  mldsa_verify = λ key inp sig. bytes_eq sig (42 ∷ []);
  ecdsa_verify_asn1 = λ key inp sig. bytes_eq sig (42 ∷ []);
  sum256 = λ b. b;
  sum384 = λ b. b;
  PrivateKey = KeyKind;
  parse_pkcs8_private_key = λ b. some KeyKind.ed25519_key;
  private_kind = λ k. k;
  public = λ k. k;
  public_bytes = λ k. [];
  marshal_pkix_public_key = λ k. some [];
  sign_message = λ k opts nonce inp. some (42 ∷ []);
}

abbrev pub element : ℕ → Bytes → Bytes
element t c = t ∷ (big_endian 1 (length c) ++ c)

algorithm : Bytes
unfolding add_mtc_proof_sig_alg
algorithm = bytes_of (add_mtc_proof_sig_alg toy_bytes version_plants07)

algorithm_lem : add_mtc_proof_sig_alg toy_bytes version_plants07 ≡ ok algorithm
unfolding algorithm add_mtc_proof_sig_alg
algorithm_lem = refl

-- The name of the CA 1.
name : Bytes
unfolding add_x509_name id_string string_loop format_decimal parse_base128 parse_loop
name = bytes_of (add_x509_name toy_bytes version_plants07 (1 ∷ []))

-- The entry 0 of the log 1, and what follows the serial number in its certificate.
tbs : Bytes
unfolding algorithm name add_x509_v3_version
tbs =
    bytes_of (add_x509_v3_version toy_bytes)
    ++ ((2 ∷ big_endian 8 (2 ^ 48))
        ++ (algorithm
            ++ (name ++ (element 48 [] ++ (element 48 [] ++ element 48 (element 48 (5 ∷ [])))))))

certificate : Certificate
unfolding algorithm name tbs body
certificate = record {
  raw = element 48 (element 48 tbs ++ (algorithm ++ element 3 (0 ∷ body)));
  raw_signature_algorithm = algorithm;
  raw_issuer = name;
  raw_subject = [];
  raw_tbs_certificate = element 48 tbs;
  raw_subject_public_key_info = element 48 (element 48 (5 ∷ []));
  extensions = [];
}

abbrev value_or : Outcome PolicyError (Policy toy_keys Certificate) → Policy toy_keys Certificate
value_or (ok p) = p
value_or (err e) = empty_policy toy_keys Certificate version_plants07
value_or panic = empty_policy toy_keys Certificate version_plants07
value_or stuck = empty_policy toy_keys Certificate version_plants07

-- The policy of the CA 1, which signs the serial numbers up to 2 ^ 49.
policy : Policy toy_keys Certificate
unfolding certificate register_ca add_cosigner new_cosigner_public id_string string_loop
    format_decimal parse_base128 parse_loop
policy = value_or (
    register_ca toy_keys Certificate (empty_policy toy_keys Certificate version_plants07)
      certificate (1 ∷ []) ed25519 [] 5 (2 ^ 49))

parsed_lem :
    parse_mtc_proof toy_bytes version_plants07 certificate
    ≡ ok (proof_of exts parsed_exts 0 1 [] signed)
unfolding certificate algorithm name tbs body add_x509_v3_version parse_mtc_proof parse_signature
    cert_signature_bytes read_extensions read_signatures read_number add_mtc_proof_sig_alg
parsed_lem = refl

parse_mtc_proof-IsCanonical_example :
    IsCanonical version_plants07 (proof_of exts parsed_exts 0 1 [] signed)
parse_mtc_proof-IsCanonical_example =
    parse_mtc_proof-IsCanonical toy_bytes toy_bytes-IsCryptobyte version_plants07 certificate
      (proof_of exts parsed_exts 0 1 [] signed) parsed_lem

parse_mtc_proof-IsReturn_example : IsReturn (parse_mtc_proof toy_bytes version_plants07 certificate)
parse_mtc_proof-IsReturn_example =
    parse_mtc_proof-IsReturn toy_bytes toy_bytes-IsCryptobyte version_plants07 certificate algorithm
      algorithm_lem

abbrev result : VerifyResult
result = record {
  trusted_subtree = false;
  verify_errors = [];
  policy_result = record { cosigners = true ∷ []; groups = [] };
  unsatisfied_requirements = [];
}

accepted_lem : verify_mtc_proof toy_bytes toy toy_keys toy_signatures policy certificate ≡ ok result
unfolding verify_mtc_proof check_policy check_signatures check_cosigner entry_hash hash_tbs
    unsatisfied_of is_revoked evaluate_groups groups_loop find_trusted_subtree ca_id_from_x509_name
    parse_single_attribute_x509_name verify_cosignature cosigned_message named_header tlog_origin
    log_id append_base128 append_loop base128_length count_bytes evaluate_subtree_inclusion_proof
    evaluate_loop is_valid_subtree len64 policy certificate algorithm name tbs body
    add_x509_v3_version parse_mtc_proof parse_signature cert_signature_bytes read_extensions
    read_signatures read_number add_mtc_proof_sig_alg add_x509_name register_ca add_cosigner
    new_cosigner_public id_string string_loop format_decimal parse_base128 parse_loop
accepted_lem = refl

verify_mtc_proof-IsAccepted_example :
    IsAccepted toy_bytes toy toy_keys toy_signatures policy certificate
verify_mtc_proof-IsAccepted_example =
    verify_mtc_proof-IsAccepted toy_bytes toy toy_keys toy_signatures policy certificate result
      accepted_lem
