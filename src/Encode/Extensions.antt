-- ===== src/Encode/Extensions.antt =====
-- `addExtensions` of demo/encode.go.
use merkle_tree_certs.Prelude.{
  ℕ, zero, suc, ◌+◌, ◌*◌, ◌/◌, ◌%◌, ◌^◌, ℤ, List, [], ◌∷◌, length, Bool, true, false, ◌==◌, not,
  ◌||◌, ◌&&◌, if◌then◌else◌, Option, none, some,
}
use merkle_tree_certs.Prelude.{ok, found}
use merkle_tree_certs.Bits.{len64}
use merkle_tree_certs.Log.Hash.{Bytes}
use merkle_tree_certs.Config.Version.{DraftVersion, version_plants05, version_plants06, version_le}
use merkle_tree_certs.Config.Algorithm.{
  SignatureAlgorithm, p256_with_sha256, p384_with_sha384, ed25519, mldsa44, mldsa65, mldsa87,
}
use merkle_tree_certs.Config.Structs.{X509, CertConfigBase}
use merkle_tree_certs.Cryptobyte.{Cryptobyte, Tag, Oid, Build, BuildError, ◌+++◌, around, oid_of}
use merkle_tree_certs.Encode.{add_asn1_implicit_string, add_asn1_explicit_tag}
use merkle_tree_certs.Encode.Oids.{
  oid_key_usage, oid_ext_key_usage, oid_subject_alt_name, oid_basic_constraints,
  oid_mtc_ca_with_sha256, oid_mtc_ca_experiment, oid_mtc_ca_with_sha256_experiment, oid_sha256,
  oid_ecdsa_with_sha256, oid_ecdsa_with_sha384, oid_ed25519, oid_mldsa44, oid_mldsa65, oid_mldsa87,
}

-- `mtcCAInfo`, with the algorithm of its cosigner.
pub record MtcCaInfo : Type 0 where
  pub version : DraftVersion
  pub signature_algorithm : SignatureAlgorithm
  pub min_serial : ℕ
  pub max_serial : ℕ
  pub override_oid : Oid
  pub override_value : Bytes

-- `bits.Reverse8`
abbrev reverse_digits : ℕ → ℕ → ℕ → ℕ
reverse_digits zero v acc = acc
reverse_digits (suc k) v acc = reverse_digits k (v / 2) (acc * 2 + v % 2)

abbrev pub reverse8 : ℕ → ℕ
reverse8 v = reverse_digits 8 (v % 256) 0

-- DER orders the bits from the most significant one, and a second byte of zeros is left out.
abbrev pub key_usage_bytes : ℕ → Bytes
key_usage_bytes usage =
    let low = reverse8 usage in
    let high = reverse8 (usage / 2 ^ 8) in if high == 0 then low ∷ [] else low ∷ high ∷ []

abbrev pub algorithm_oid : SignatureAlgorithm → Oid
algorithm_oid p256_with_sha256 = oid_ecdsa_with_sha256
algorithm_oid p384_with_sha384 = oid_ecdsa_with_sha384
algorithm_oid ed25519 = oid_ed25519
algorithm_oid mldsa44 = oid_mldsa44
algorithm_oid mldsa65 = oid_mldsa65
algorithm_oid mldsa87 = oid_mldsa87

-- Without an override, the OID of the draft version.
abbrev pub mtc_ca_oid : DraftVersion → Oid → Oid
mtc_ca_oid version [] =
    if version_le version version_plants05
    then oid_mtc_ca_experiment
    else if version_le version version_plants06
    then oid_mtc_ca_with_sha256_experiment
    else oid_mtc_ca_with_sha256
mtc_ca_oid version (arc ∷ arcs) = arc ∷ arcs

abbrev pub is_some {ℓ} : {A : Type ℓ} → Option A → Bool
is_some none = false
is_some (some a) = true

abbrev pub true_of : Option Bool → Bool
true_of none = false
true_of (some b) = b

module _ (cb : Cryptobyte) where
  -- An extension that is critical.
  abbrev pub extension : Oid → Build → Build
  extension oid value =
      around (cb.add_asn1 Tag.sequence) (
        oid_of cb oid
        +++ (ok (cb.add_boolean true) +++ around (cb.add_asn1 Tag.octet_string) value))

  abbrev add_oids : List Oid → Build
  add_oids [] = ok []
  add_oids (eku ∷ ekus) = oid_of cb eku +++ add_oids ekus

  abbrev add_dns_names : List Bytes → Build
  add_dns_names [] = ok []
  add_dns_names (dns ∷ names) =
      add_asn1_implicit_string cb (Tag.context 2) dns +++ add_dns_names names

  abbrev add_path_len : Option ℤ → Build
  add_path_len none = ok []
  add_path_len (some n) = ok (cb.add_asn1_int64 n)

  -- The contents of the extension of a CA.
  unfoldable pub mtc_ca_value : MtcCaInfo → Build
  mtc_ca_value info =
      let log_hash = around (cb.add_asn1 Tag.sequence) (oid_of cb oid_sha256) in
      let sig_alg =
        around (cb.add_asn1 Tag.sequence) (oid_of cb (algorithm_oid info.signature_algorithm)) in
      around (cb.add_asn1 Tag.sequence) (
        (if version_le info.version version_plants05 then log_hash else ok [])
        +++ (sig_alg
            +++ (ok (cb.add_asn1_uint64 info.min_serial)
                +++ (if version_le version_plants05 info.version
                    then ok (cb.add_asn1_uint64 info.max_serial)
                    else ok []))))

  unfoldable pub add_mtc_ca : Option MtcCaInfo → Build
  add_mtc_ca none = ok []
  add_mtc_ca (some info) =
      extension (mtc_ca_oid info.version info.override_oid)
        (if length info.override_value == 0 then mtc_ca_value info else ok info.override_value)

  module _ (x509 : X509) where
    unfoldable pub add_extensions : CertConfigBase x509 → Option MtcCaInfo → Build
    add_extensions config mtc_ca =
        let has_key_usage = not (config.key_usage == 0) in
        let has_ext_key_usage = not (length config.ext_key_usage == 0) in
        let has_subject_alt_name = not (length config.dns_names == 0) in
        let has_basic_constraints = is_some config.is_ca || is_some config.max_path_len in
        let key_usage = extension oid_key_usage (
          found BuildError.bad_key_usage (
            x509.marshal_bit_string (key_usage_bytes config.key_usage)
              (len64 (config.key_usage % 2 ^ 16)))) in
        let ext_key_usage =
          extension oid_ext_key_usage
            (around (cb.add_asn1 Tag.sequence) (add_oids config.ext_key_usage)) in
        let subject_alt_name =
          extension oid_subject_alt_name
            (around (cb.add_asn1 Tag.sequence) (add_dns_names config.dns_names)) in
        let basic_constraints = extension oid_basic_constraints (
          around (cb.add_asn1 Tag.sequence) (
            (if true_of config.is_ca then ok (cb.add_boolean true) else ok [])
            +++ add_path_len config.max_path_len)) in
        let all = add_asn1_explicit_tag cb 3 Tag.sequence (
          (if has_key_usage then key_usage else ok [])
          +++ ((if has_ext_key_usage then ext_key_usage else ok [])
              +++ ((if has_subject_alt_name then subject_alt_name else ok [])
                  +++ ((if has_basic_constraints then basic_constraints else ok [])
                      +++ add_mtc_ca mtc_ca)))) in
        if not has_key_usage
          && not has_ext_key_usage
          && not has_subject_alt_name
          && not has_basic_constraints
          && not (is_some mtc_ca)
        then ok []
        else all
