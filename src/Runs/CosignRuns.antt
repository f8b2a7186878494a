-- ===== src/Runs/CosignRuns.antt =====
-- Signed messages, signatures and a policy file of the demo tool, and the theorems on them.
use merkle_tree_certs.Prelude.{
  ℕ, ◌≡◌, refl, sym, arith, ap, take, List, [], ◌∷◌, ◌++◌, true, Option, some, bytes_eq, codes,
  Outcome, ok, err, panic, stuck, ℤ, All,
}
use merkle_tree_certs.Log.Hash.{Bytes}
use merkle_tree_certs.Log.Subtree.{is_valid_subtree}
use merkle_tree_certs.Bits.{len64}
use merkle_tree_certs.Config.Version.{version_plants07}
use merkle_tree_certs.Config.Algorithm.{ed25519}
use merkle_tree_certs.Config.Base128.{
  parse_loop, parse_base128, append_base128, append_loop, base128_length, count_bytes,
}
use merkle_tree_certs.Config.AnchorId.{
  append_parts, id_string, string_loop, format_decimal, pattern_string_loop, id_pattern_string,
  append_pattern_range,
}
use merkle_tree_certs.Config.FromText.{
  parse_uint, atoi, append_texts, id_from_string, append_pattern_texts, append_braced,
  id_pattern_from_string, append_pattern_range_with_infinity, parse_serial, parse_log_and_index,
  parse_object_identifier, oid_components,
}
use merkle_tree_certs.Config.FromText.AnchorIds.{IsId, id_from_string-id_string}
use merkle_tree_certs.Config.Names.{algorithm_from_string}
use merkle_tree_certs.Config.Structs.{CosignerConfig}
use merkle_tree_certs.Cosign.{KeyKind, CosignerPublic, new_cosigner_public}
use merkle_tree_certs.Cosign.Message.{CosignError, tlog_origin, named_header, cosigned_message}
use merkle_tree_certs.Cosign.Sign.{
  Cosigner, opts_of, key_id_tail, new_cosigner_from_config, sign, sign_message_of,
  verify_cosignature,
}
use merkle_tree_certs.Cosign.Injective.{cosigned_message-injective}
use merkle_tree_certs.Cosign.RoundTrip.{IsSignature, verify_cosignature-sign}
use merkle_tree_certs.Policy.{
  Policy, member_indices, add_cosigner, add_group, require_cosigners_for_all_cas,
}
use merkle_tree_certs.Policy.Build.{Operation, build, empty_policy}
use merkle_tree_certs.Policy.File.{FileError, group_number, parse_command, parse_policy_file}
use merkle_tree_certs.Policy.File.InRange.{IsInRange, parse_policy_file-IsInRange}
use merkle_tree_certs.Runs.LogRuns.{toy}
use merkle_tree_certs.Runs.PolicyRuns.{toy_keys}
use merkle_tree_certs.Runs.ToyBytes.{toy_bytes, toy_bytes-IsCryptobyte}
use merkle_tree_certs.Runs.VerifyRuns.{toy_signatures}

-- 32473.1
id_from_string_run : id_from_string (codes "32473.1") ≡ ok (129 ∷ 253 ∷ 89 ∷ 1 ∷ [])
unfolding id_from_string append_texts parse_uint append_base128 append_loop base128_length
    count_bytes
id_from_string_run = refl

pattern_run : id_pattern_from_string (codes "1.{2-}.{3-9}") ≡ ok (1 ∷ 1 ∷ 2 ∷ 128 ∷ 3 ∷ 9 ∷ [])
unfolding id_pattern_from_string append_pattern_texts append_braced append_pattern_range
    append_pattern_range_with_infinity parse_uint append_base128 append_loop base128_length
    count_bytes
pattern_run = refl

pattern_string_run : id_pattern_string (1 ∷ 1 ∷ 2 ∷ 128 ∷ 3 ∷ 9 ∷ []) ≡ codes "1.{2-}.{3-9}"
unfolding id_pattern_string pattern_string_loop format_decimal parse_base128 parse_loop
pattern_string_run = refl

serial_run : parse_serial (codes "1:10") ≡ ok 281474976710666
unfolding parse_serial parse_log_and_index parse_uint
serial_run = refl

oid_run : parse_object_identifier (codes "2.5.29.15") ≡ ok (2 ∷ 5 ∷ 29 ∷ 15 ∷ [])
unfolding parse_object_identifier oid_components atoi parse_uint
oid_run = refl

abbrev message_or : Outcome CosignError Bytes → Bytes
message_or (ok bs) = bs
message_or (err e) = []
message_or panic = []
message_or stuck = []

-- The subtree [8, 13) of the log 2, for the cosigner 1.
message : Bytes
unfolding cosigned_message named_header tlog_origin id_string string_loop format_decimal
    parse_base128 parse_loop is_valid_subtree len64
message = message_or (cosigned_message toy_bytes version_plants07 (1 ∷ []) (2 ∷ []) 0 8 13 (7 ∷ []))

message_lem :
    cosigned_message toy_bytes version_plants07 (1 ∷ []) (2 ∷ []) 0 8 13 (7 ∷ []) ≡ ok message
unfolding message cosigned_message named_header tlog_origin id_string string_loop format_decimal
    parse_base128 parse_loop is_valid_subtree len64
message_lem = refl

cosigner-IsId : IsId (1 ∷ [])
unfolding append_parts append_base128 append_loop base128_length count_bytes
cosigner-IsId = (1, [], (omega arith, tt), refl)

log-IsId : IsId (2 ∷ [])
unfolding append_parts append_base128 append_loop base128_length count_bytes
log-IsId = (2, [], (omega arith, tt), refl)

-- 32473.1
two_parts-IsId : IsId (129 ∷ 253 ∷ 89 ∷ 1 ∷ [])
unfolding append_parts append_base128 append_loop base128_length count_bytes
two_parts-IsId = (32473, 1 ∷ [], (omega arith, (omega arith, tt)), refl)

id_from_string-id_string_example :
    id_from_string (id_string (129 ∷ 253 ∷ 89 ∷ 1 ∷ [])) ≡ ok (129 ∷ 253 ∷ 89 ∷ 1 ∷ [])
id_from_string-id_string_example = id_from_string-id_string (129 ∷ 253 ∷ 89 ∷ 1 ∷ []) two_parts-IsId

cosigned_message-injective_example :
    ◌≡◌ {A = Bytes} (1 ∷ []) (1 ∷ [])
    × ◌≡◌ {A = Bytes} (2 ∷ []) (2 ∷ [])
    × ◌≡◌ {A = ℕ} 0 0
    × ◌≡◌ {A = ℕ} 8 8
    × ◌≡◌ {A = ℕ} 13 13
    × ◌≡◌ {A = Bytes} (7 ∷ []) (7 ∷ [])
cosigned_message-injective_example =
    cosigned_message-injective toy_bytes toy_bytes-IsCryptobyte version_plants07 (1 ∷ []) (1 ∷ [])
      (2 ∷ []) (2 ∷ []) message 0 0 8 8 13 13 (7 ∷ []) (7 ∷ []) refl cosigner-IsId cosigner-IsId
      log-IsId log-IsId (omega arith) (omega arith) (omega arith) (omega arith) (omega arith)
      (omega arith) message_lem message_lem

verifies_toy :
    (sig : Bytes)
    → ◌≡◌ {A = Option Bytes} (some (42 ∷ [])) (some sig)
    → bytes_eq sig (42 ∷ []) ≡ true
verifies_toy sig e = let same : 42 ∷ [] ≡ sig = cc in ap (λ s. bytes_eq s (42 ∷ [])) (sym same)

toy_signatures-IsSignature : IsSignature toy_keys toy_signatures
toy_signatures-IsSignature = record {
  kinds = λ k. refl;
  ed25519_verifies = λ k nonce inp sig kind made. verifies_toy sig made;
  mldsa_verifies = λ k nonce inp sig kind made. verifies_toy sig made;
  ecdsa_sha256_verifies = λ k nonce inp sig kind made. verifies_toy sig made;
  ecdsa_sha384_verifies = λ k nonce inp sig kind made. verifies_toy sig made;
}

abbrev cosigner_config : CosignerConfig
cosigner_config = record { cosigner_id = 1 ∷ []; signature_algorithm = ed25519; private_key = [] }

abbrev cosigner : Cosigner toy_keys toy_signatures
cosigner = record {
  version = version_plants07;
  id = 1 ∷ [];
  key_id = take 4 (
      toy.sum (
        tlog_origin (1 ∷ [])
        ++ key_id_tail toy_keys toy_signatures version_plants07 ed25519 KeyKind.ed25519_key));
  signature_algorithm = ed25519;
  signer = KeyKind.ed25519_key;
  signer_opts = opts_of toy_keys toy_signatures ed25519;
}

cosigner_lem :
    new_cosigner_from_config toy_keys toy_signatures toy version_plants07 cosigner_config
    ≡ ok cosigner
unfolding new_cosigner_from_config
cosigner_lem = refl

signed_lem : sign toy_keys toy_signatures toy_bytes cosigner 5 (2 ∷ []) 8 13 (7 ∷ []) ≡ ok (42 ∷ [])
unfolding sign sign_message_of cosigned_message named_header tlog_origin id_string string_loop
    format_decimal parse_base128 parse_loop is_valid_subtree len64
signed_lem = refl

verify_cosignature-sign_example :
    (p : CosignerPublic toy_keys) × (new_cosigner_public toy_keys version_plants07
        (1 ∷ [])
        ed25519
        KeyKind.ed25519_key
      ≡ ok p)
    × (verify_cosignature toy_keys toy_signatures toy_bytes p (2 ∷ []) 8 13 (7 ∷ []) (42 ∷ [])
        ≡ ok tt)
verify_cosignature-sign_example =
    verify_cosignature-sign toy_keys toy_signatures toy_signatures-IsSignature toy_bytes toy
      version_plants07 cosigner_config cosigner 5 (2 ∷ []) (42 ∷ []) 8 13 (7 ∷ []) cosigner_lem
      signed_lem

abbrev policy_lines : List Bytes
policy_lines =
    codes "cosigner 2 ed25519 AAAA # a mirror"
    ∷ codes "  "
    ∷ codes "group g any 2"
    ∷ codes "group h 1 g 2"
    ∷ codes "require-cosigners all g"
    ∷ []

abbrev policy_operations : List (Operation Bytes)
policy_operations =
    Operation.cosigner (2 ∷ []) ed25519 (codes "AAAA")
    ∷ Operation.group (codes "g") (ℤ.pos 1) (codes "2" ∷ [])
    ∷ Operation.group (codes "h") (ℤ.pos 1) (codes "g" ∷ codes "2" ∷ [])
    ∷ Operation.require_for_all (codes "g")
    ∷ []

abbrev no_policy : Policy toy_keys Bytes
no_policy = empty_policy toy_keys Bytes version_plants07

abbrev policy_or : Outcome FileError (Policy toy_keys Bytes) → Policy toy_keys Bytes
policy_or (ok p) = p
policy_or (err e) = no_policy
policy_or panic = no_policy
policy_or stuck = no_policy

file_policy : Policy toy_keys Bytes
unfolding parse_policy_file parse_command group_number algorithm_from_string id_from_string atoi
    append_texts parse_uint append_base128 append_loop base128_length count_bytes add_cosigner
    new_cosigner_public add_group member_indices require_cosigners_for_all_cas id_string string_loop
    format_decimal parse_base128 parse_loop
file_policy = policy_or (parse_policy_file Bytes (λ s. some s) toy_keys no_policy policy_lines)

file_policy_lem :
    parse_policy_file Bytes (λ s. some s) toy_keys no_policy policy_lines ≡ ok file_policy
unfolding file_policy parse_policy_file parse_command group_number atoi algorithm_from_string
    id_from_string append_texts parse_uint append_base128 append_loop base128_length count_bytes
    add_cosigner new_cosigner_public add_group member_indices require_cosigners_for_all_cas
    id_string string_loop format_decimal parse_base128 parse_loop
file_policy_lem = refl

parse_policy_file-IsInRange_example :
    (ops : List (Operation Bytes)) × All IsInRange ops
    × (build toy_keys Bytes no_policy ops ≡ ok file_policy)
parse_policy_file-IsInRange_example =
    parse_policy_file-IsInRange Bytes (λ s. some s) toy_keys no_policy file_policy policy_lines
      file_policy_lem
