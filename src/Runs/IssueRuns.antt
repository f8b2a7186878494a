-- ===== src/Runs/IssueRuns.antt =====
-- A certificate and its log entry as demo/encode.go makes them, read by demo/verify_proof.go.
use merkle_tree_certs.Prelude.{
  ℕ, ◌+◌, ◌^◌, ◌≡◌, refl, arith, [], ◌∷◌, false, some, none, Outcome, ok, err, panic, stuck,
}
use merkle_tree_certs.Log.Hash.{Bytes, HashValue, hash_leaf, hash_node}
use merkle_tree_certs.Log.Tree.{
  static_hash_by_level, new_static_merkle_tree, next_level, levels_from,
}
use merkle_tree_certs.Log.Tree.Levels.{leaf_of}
use merkle_tree_certs.Log.Subtree.{is_valid_subtree, subtree_hash, subtree_loop, join_left}
use merkle_tree_certs.Log.Inclusion.{
  subtree_inclusion_proof, inclusion_loop, add_neighbor, evaluate_subtree_inclusion_proof,
}
use merkle_tree_certs.Bits.{len64, trailing_zeros64}
use merkle_tree_certs.Config.Version.{version_plants07}
use merkle_tree_certs.Config.Base128.{parse_loop, parse_base128}
use merkle_tree_certs.Config.AnchorId.{id_string, string_loop, format_decimal}
use merkle_tree_certs.Config.Structs.{
  X509, CertConfigBase, SubjectConfig, EntryConfig, CertificateConfig, CaConfig,
}
use merkle_tree_certs.Encode.{
  add_x509_v3_version, add_mtc_proof_sig_alg, add_x509_name, add_x509_time, add_validity,
  add_subject, add_mtc_entry_extensions, add_mtc_proof_signatures,
}
use merkle_tree_certs.Encode.Extensions.{add_extensions}
use merkle_tree_certs.Encode.Entry.{
  add_tbs_certificate, public_key_algorithm, marshal_contents, marshal_tbs_certificate_log_entry,
}
use merkle_tree_certs.Encode.Certificate.{
  CertificateError, compare_cosigner_ids, sort_cosignatures, add_cosignatures, add_coordinates,
  add_mtc_proof, certificate_signature,
}
use merkle_tree_certs.Proof.{Certificate, parse_signature}
use merkle_tree_certs.Proof.RoundTrip.{proof_of}
use merkle_tree_certs.Proof.Issued.{parse_signature-certificate_signature}
use merkle_tree_certs.Verify.{entry_hash}
use merkle_tree_certs.Verify.EntryHash.{entry_hash-marshal_tbs_certificate_log_entry}
use merkle_tree_certs.Runs.LogRuns.{toy, entries, tree, tree_lem, leaves_lem, aligned}
use merkle_tree_certs.Runs.PolicyRuns.{toy_keys}
use merkle_tree_certs.Runs.ToyBytes.{toy_bytes, toy_bytes-IsCryptobyte, toy_bytes-IsDer}
use merkle_tree_certs.Runs.ToyNumbers.{read_number}
use merkle_tree_certs.Runs.ProofRuns.{bytes_of, exts, parsed_exts, exts_lem, three, three_distinct}
use merkle_tree_certs.Runs.VerifyRuns.{toy_signatures, element}

-- A time is its year, and every name is the empty sequence.
abbrev toy_x509 : X509
toy_x509 = record {
  Time = ℕ;
  utc_year = λ t. t;
  add_asn1_utc_time = λ t. some [];
  add_asn1_generalized_time = λ t. some [];
  marshal_name = λ s. some (48 ∷ 0 ∷ []);
  marshal_bit_string = λ b n. some [];
}

abbrev base : CertConfigBase toy_x509
base = record {
  not_before = 2020;
  not_after = 2021;
  dns_names = [];
  key_usage = 0;
  ext_key_usage = [];
  is_ca = none;
  max_path_len = none;
}

abbrev subject : SubjectConfig
subject = record {
  country = [];
  organization = [];
  organizational_unit = [];
  locality = [];
  province = [];
  street_address = [];
  postal_code = [];
  serial_number = [];
  common_name = [];
}

abbrev entry : EntryConfig toy_x509
entry = record {
  repeat = 1;
  null = false;
  subject = subject;
  public_key = element 48 (element 48 (5 ∷ []));
  base = base;
  checkpoints = [];
  certificates = [];
  mtc_entry_extensions = exts;
}

abbrev how : CertificateConfig
how = record {
  subtree_start = 8;
  subtree_end = 13;
  checkpoint = [];
  cosigners = [];
  extra_cosignatures = [];
  bit_flip_proof = false;
  unused_bit = false;
  dont_sort_cosigners = false;
  override_signature_algorithm = [];
  override_tbs_signature_algorithm = [];
  override_certificate_property_list = none;
}

abbrev ca : CaConfig toy_x509
ca = record {
  version = version_plants07;
  id = 1 ∷ [];
  log_number = 1;
  cosigners = [];
  ca_cert = record {
    base = base;
    min_serial = record { log = 0; index = 0 };
    max_serial = record { log = 0; index = 0 };
    override_mtc_ca_extension_oid = [];
    override_mtc_ca_extension_value = [];
  };
  entries = entry ∷ [];
}

tbs : Bytes
unfolding add_tbs_certificate add_x509_v3_version add_mtc_proof_sig_alg add_x509_name add_validity
    add_x509_time add_subject add_extensions id_string string_loop format_decimal parse_base128
    parse_loop
tbs =
    bytes_of
      (add_tbs_certificate toy_bytes toy_x509 version_plants07 (1 ∷ []) (2 ^ 48 + 10) entry how)

tbs_lem :
    add_tbs_certificate toy_bytes toy_x509 version_plants07 (1 ∷ []) (2 ^ 48 + 10) entry how
    ≡ ok tbs
unfolding tbs add_tbs_certificate add_x509_v3_version add_mtc_proof_sig_alg add_x509_name
    add_validity add_x509_time add_subject add_extensions id_string string_loop format_decimal
    parse_base128 parse_loop
tbs_lem = refl

logged : Bytes
unfolding marshal_tbs_certificate_log_entry marshal_contents public_key_algorithm
    add_mtc_entry_extensions add_x509_v3_version add_x509_name add_validity add_x509_time
    add_subject add_extensions id_string string_loop format_decimal parse_base128 parse_loop
    read_number
logged =
    bytes_of
      (marshal_tbs_certificate_log_entry toy_bytes toy_x509 toy version_plants07 (1 ∷ []) entry)

logged_lem :
    marshal_tbs_certificate_log_entry toy_bytes toy_x509 toy version_plants07 (1 ∷ []) entry
    ≡ ok logged
unfolding logged marshal_tbs_certificate_log_entry marshal_contents public_key_algorithm
    add_mtc_entry_extensions add_x509_v3_version add_x509_name add_validity add_x509_time
    add_subject add_extensions id_string string_loop format_decimal parse_base128 parse_loop
    read_number
logged_lem = refl

abbrev certificate : Certificate
certificate = record {
  raw = [];
  raw_signature_algorithm = [];
  raw_issuer = [];
  raw_subject = [];
  raw_tbs_certificate = tbs;
  raw_subject_public_key_info = element 48 (element 48 (5 ∷ []));
  extensions = [];
}

entry_hash-marshal_tbs_certificate_log_entry_example :
    entry_hash toy_bytes toy version_plants07 certificate exts
    ≡ ok (2 ^ 48 + 10, hash_leaf toy logged)
entry_hash-marshal_tbs_certificate_log_entry_example =
    entry_hash-marshal_tbs_certificate_log_entry toy_bytes toy_bytes-IsDer toy_x509 toy
      (λ s bs e. ([], e)) version_plants07 (1 ∷ []) entry how certificate (2 ^ 48 + 10) refl
      (omega arith) refl refl logged refl tbs_lem logged_lem

abbrev result_of : Outcome CertificateError Bytes → Bytes
result_of (ok bs) = bs
result_of (err e) = []
result_of panic = []
result_of stuck = []

signature : Bytes
unfolding certificate_signature add_mtc_proof add_mtc_entry_extensions add_coordinates
    add_mtc_proof_signatures add_cosignatures sort_cosignatures compare_cosigner_ids
    subtree_inclusion_proof inclusion_loop add_neighbor subtree_hash subtree_loop join_left
    is_valid_subtree len64 trailing_zeros64 new_static_merkle_tree next_level levels_from
    static_hash_by_level hash_leaf hash_node
signature = result_of (
    certificate_signature toy_bytes toy_keys toy_signatures (λ a i. 0) toy_x509 toy tree ca entry
      how 10 8 13 (sort_cosignatures three))

signature_lem :
    certificate_signature toy_bytes toy_keys toy_signatures
      (λ a i. 0)
      toy_x509
      toy
      tree
      ca
      entry
      how
      10
      8
      13
      (sort_cosignatures three)
    ≡ ok signature
unfolding signature certificate_signature add_mtc_proof add_mtc_entry_extensions add_coordinates
    add_mtc_proof_signatures add_cosignatures sort_cosignatures compare_cosigner_ids
    subtree_inclusion_proof inclusion_loop add_neighbor subtree_hash subtree_loop join_left
    is_valid_subtree len64 trailing_zeros64 new_static_merkle_tree next_level levels_from
    static_hash_by_level hash_leaf hash_node
signature_lem = refl

parse_signature-certificate_signature_example :
    (body : Bytes) × (proof : Bytes) × (h : HashValue) × (signature ≡ 0 ∷ body)
    × (parse_signature toy_bytes version_plants07 body
        ≡ ok (proof_of exts parsed_exts 8 13 proof (sort_cosignatures three)))
    × (subtree_hash toy tree 8 13 ≡ ok h)
    × (evaluate_subtree_inclusion_proof toy 10 8 13 (leaf_of toy (entries 13) 10) proof ≡ ok h)
parse_signature-certificate_signature_example =
    parse_signature-certificate_signature toy_bytes toy_bytes-IsCryptobyte toy_keys toy_signatures
      (λ a i. 0) toy_x509 toy (leaf_of toy (entries 13)) tree 13 tree_lem leaves_lem (omega arith)
      ca entry how 10 8 13 three parsed_exts signature aligned (omega arith) (omega arith)
      (omega arith) refl refl (λ e. cc) exts_lem (refl, (refl, (refl, tt))) three_distinct
      signature_lem
