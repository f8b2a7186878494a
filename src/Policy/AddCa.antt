-- ===== src/Policy/AddCa.antt =====
-- `AddCA` of demo/policy.go, with `caIDFromX509Name`.
use merkle_tree_certs.Prelude.{
  ℕ, ◌-◌, ◌^◌, List, [], ◌∷◌, length, ◌==◌, Bool, ◌&&◌, ◌||◌, if◌then◌else◌, Option, none, some,
  bytes_eq,
}
use merkle_tree_certs.Prelude.{Outcome, ok, lift_err, found, absent, check, ◌>>=◌, ◌>>◌}
use merkle_tree_certs.Log.Hash.{Bytes}
use merkle_tree_certs.Config.Version.{DraftVersion, version_plants05, version_plants06, version_le}
use merkle_tree_certs.Config.Algorithm.{
  SignatureAlgorithm, p256_with_sha256, p384_with_sha384, ed25519, mldsa44, mldsa65, mldsa87,
}
use merkle_tree_certs.Config.AnchorId.{id_string}
use merkle_tree_certs.Config.FromText.{id_from_string}
use merkle_tree_certs.Cryptobyte.{Cryptobyte, Tag, Oid}
use merkle_tree_certs.Cosign.{KeyLibrary, PolicyError}
use merkle_tree_certs.Encode.Oids.{
  oid_rdna_trust_anchor_id, oid_rdna_trust_anchor_id_experiment1,
  oid_rdna_trust_anchor_id_experiment2, oid_mtc_ca_experiment, oid_mtc_ca_with_sha256_experiment,
  oid_mtc_ca_with_sha256, oid_sha256, oid_ecdsa_with_sha256, oid_ecdsa_with_sha384, oid_ed25519,
  oid_mldsa44, oid_mldsa65, oid_mldsa87,
}
use merkle_tree_certs.Proof.{Certificate}
use merkle_tree_certs.Policy.{Policy, lookup, register_ca}

pub data NameError : Type 0 where
  malformed_name unexpected_attribute extra_attributes malformed_id : NameError

pub data CaError : Type 0 where
  bad_subject : NameError → CaError
  no_extension malformed_extension unsupported_hash unknown_algorithm : CaError
  not_registered : PolicyError → CaError

-- The text of an ID that `TrustAnchorIDFromString` reads, with one error for all.
abbrev pub read_id : Bytes → Outcome NameError Bytes
read_id s = lift_err (λ _. NameError.malformed_id) (id_from_string s)

-- `isEmptyOrASN1Null`
abbrev pub is_empty_or_asn1_null : Bytes → Bool
is_empty_or_asn1_null s = length s == 0 || bytes_eq s (5 ∷ 0 ∷ [])

-- The algorithm of an OID that nothing follows.
abbrev pub algorithm_of_oid : Oid → Option SignatureAlgorithm
algorithm_of_oid oid =
    if bytes_eq oid oid_ecdsa_with_sha256
    then some p256_with_sha256
    else if bytes_eq oid oid_ecdsa_with_sha384
    then some p384_with_sha384
    else if bytes_eq oid oid_ed25519
    then some ed25519
    else if bytes_eq oid oid_mldsa44
    then some mldsa44
    else if bytes_eq oid oid_mldsa65
    then some mldsa65
    else if bytes_eq oid oid_mldsa87
    then some mldsa87
    else none

-- The first extension with the OID.
abbrev pub find_extension : Oid → List (Oid × Bytes) → Option Bytes
find_extension oid [] = none
find_extension oid ((id, value) ∷ exts) =
    let others = find_extension oid exts in if bytes_eq id oid then some value else others

abbrev pub wanted_extension : DraftVersion → Oid
wanted_extension version =
    if version_le version version_plants05
    then oid_mtc_ca_experiment
    else if version_le version version_plants06
    then oid_mtc_ca_with_sha256_experiment
    else oid_mtc_ca_with_sha256

-- What the extension of a CA holds.
pub record CaExtension : Type 0 where
  pub sig_alg : SignatureAlgorithm
  pub min_serial : ℕ
  pub max_serial : ℕ

module _ (cb : Cryptobyte) where
  unfoldable pub parse_single_attribute_x509_name : Bytes → Oid → Outcome NameError Bytes
  parse_single_attribute_x509_name name want = do
    (dn, left) ← found NameError.malformed_name (cb.read_asn1 Tag.sequence name)
    check (length left == 0) NameError.malformed_name
    (rdn, dn') ← found NameError.malformed_name (cb.read_asn1 Tag.set dn)
    (attr, rdn') ← found NameError.malformed_name (cb.read_asn1 Tag.sequence rdn)
    (oid, attr') ← found NameError.malformed_name (cb.read_oid attr)
    check (bytes_eq oid want) NameError.unexpected_attribute
    check (length rdn' == 0 && length dn' == 0) NameError.extra_attributes
    ok attr'

  unfoldable pub ca_id_from_x509_name : DraftVersion → Bytes → Outcome NameError Bytes
  ca_id_from_x509_name version name =
      if version_le version version_plants05
      then (do
        attr ← parse_single_attribute_x509_name name oid_rdna_trust_anchor_id_experiment1
        (text, left) ← found NameError.malformed_id (cb.read_asn1 Tag.utf8_string attr)
        check (length left == 0) NameError.malformed_id
        read_id text)
      else (do
        attr ← parse_single_attribute_x509_name name (
            if version_le version version_plants06
            then oid_rdna_trust_anchor_id_experiment2
            else oid_rdna_trust_anchor_id)
        (id, left) ← found NameError.malformed_id (cb.read_asn1 Tag.relative_oid attr)
        check (length left == 0) NameError.malformed_id
        ok id)

  -- Up to draft plants-05 the extension starts with the hash of the log.
  unfoldable pub read_log_hash : DraftVersion → Bytes → Outcome CaError Bytes
  read_log_hash version seq =
      if version_le version version_plants05
      then (do
        (hash_seq, rest) ← found CaError.malformed_extension (cb.read_asn1 Tag.sequence seq)
        (oid, params) ← found CaError.malformed_extension (cb.read_oid hash_seq)
        check (bytes_eq oid oid_sha256 && is_empty_or_asn1_null params) CaError.unsupported_hash
        ok rest)
      else ok seq

  -- From draft plants-05 on there is a highest serial number.
  unfoldable pub read_max_serial : DraftVersion → Bytes → Outcome CaError (ℕ × Bytes)
  read_max_serial version seq =
      if version_le version_plants05 version
      then found CaError.malformed_extension (cb.read_uint64_integer seq)
      else ok (2 ^ 64 - 1, seq)

  unfoldable pub parse_ca_extension : DraftVersion → Bytes → Outcome CaError CaExtension
  parse_ca_extension version value = do
    (seq, left) ← found CaError.malformed_extension (cb.read_asn1 Tag.sequence value)
    check (length left == 0) CaError.malformed_extension
    s1 ← read_log_hash version seq
    (alg_seq, s2) ← found CaError.malformed_extension (cb.read_asn1 Tag.sequence s1)
    (oid, params) ← found CaError.malformed_extension (cb.read_oid alg_seq)
    (min_serial, s3) ← found CaError.malformed_extension (cb.read_uint64_integer s2)
    (max_serial, s4) ← read_max_serial version s3
    check (length s4 == 0) CaError.malformed_extension
    alg ← found CaError.unknown_algorithm (algorithm_of_oid oid)
    check (length params == 0) CaError.unknown_algorithm
    ok (record { sig_alg = alg; min_serial = min_serial; max_serial = max_serial })

  module _ (keys : KeyLibrary) where
    unfoldable pub add_ca :
        Policy keys Certificate → Certificate → Outcome CaError (Policy keys Certificate)
    add_ca p ca = do
      id ← lift_err CaError.bad_subject (ca_id_from_x509_name p.version ca.raw_subject)
      absent (CaError.not_registered PolicyError.already_defined) (lookup (id_string id) p.cas)
      value ← found CaError.no_extension (find_extension (wanted_extension p.version) ca.extensions)
      ext ← parse_ca_extension p.version value
      lift_err CaError.not_registered (
          register_ca keys Certificate p ca id ext.sig_alg ca.raw_subject_public_key_info
            ext.min_serial ext.max_serial)
