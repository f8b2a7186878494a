-- ===== src/Encode/Oids.antt =====
-- The object identifiers of demo/encode.go.
use merkle_tree_certs.Prelude.{[], ◌∷◌}
use merkle_tree_certs.Cryptobyte.{Oid}

abbrev pub oid_key_usage : Oid
oid_key_usage = 2 ∷ 5 ∷ 29 ∷ 15 ∷ []

abbrev pub oid_subject_alt_name : Oid
oid_subject_alt_name = 2 ∷ 5 ∷ 29 ∷ 17 ∷ []

abbrev pub oid_basic_constraints : Oid
oid_basic_constraints = 2 ∷ 5 ∷ 29 ∷ 19 ∷ []

abbrev pub oid_ext_key_usage : Oid
oid_ext_key_usage = 2 ∷ 5 ∷ 29 ∷ 37 ∷ []

abbrev experiment : Oid → Oid
experiment tail = 1 ∷ 3 ∷ 6 ∷ 1 ∷ 4 ∷ 1 ∷ 44363 ∷ 47 ∷ tail

abbrev pub oid_mtc_proof_experiment1 : Oid
oid_mtc_proof_experiment1 = experiment (0 ∷ [])

abbrev pub oid_rdna_trust_anchor_id_experiment1 : Oid
oid_rdna_trust_anchor_id_experiment1 = experiment (1 ∷ [])

abbrev pub oid_mtc_ca_experiment : Oid
oid_mtc_ca_experiment = experiment (2 ∷ [])

abbrev pub oid_rdna_trust_anchor_id_experiment2 : Oid
oid_rdna_trust_anchor_id_experiment2 = experiment (3 ∷ [])

abbrev pub oid_mtc_ca_with_sha256_experiment : Oid
oid_mtc_ca_with_sha256_experiment = experiment (4 ∷ [])

abbrev pkix : Oid → Oid
pkix tail = 1 ∷ 3 ∷ 6 ∷ 1 ∷ 5 ∷ 5 ∷ 7 ∷ tail

abbrev pub oid_mtc_ca_with_sha256 : Oid
oid_mtc_ca_with_sha256 = pkix (1 ∷ 38 ∷ [])

abbrev pub oid_mtc_proof : Oid
oid_mtc_proof = pkix (6 ∷ 67 ∷ [])

abbrev pub oid_rdna_trust_anchor_id : Oid
oid_rdna_trust_anchor_id = pkix (25 ∷ 3 ∷ [])

abbrev pub oid_alg_unsigned : Oid
oid_alg_unsigned = pkix (6 ∷ 36 ∷ [])

abbrev pub oid_rdna_unsigned : Oid
oid_rdna_unsigned = pkix (25 ∷ 1 ∷ [])

abbrev nist : Oid → Oid
nist tail = 2 ∷ 16 ∷ 840 ∷ 1 ∷ 101 ∷ 3 ∷ 4 ∷ tail

abbrev pub oid_sha256 : Oid
oid_sha256 = nist (2 ∷ 1 ∷ [])

abbrev pub oid_ecdsa_with_sha256 : Oid
oid_ecdsa_with_sha256 = 1 ∷ 2 ∷ 840 ∷ 10045 ∷ 4 ∷ 3 ∷ 2 ∷ []

abbrev pub oid_ecdsa_with_sha384 : Oid
oid_ecdsa_with_sha384 = 1 ∷ 2 ∷ 840 ∷ 10045 ∷ 4 ∷ 3 ∷ 3 ∷ []

abbrev pub oid_ed25519 : Oid
oid_ed25519 = 1 ∷ 3 ∷ 101 ∷ 112 ∷ []

abbrev pub oid_mldsa44 : Oid
oid_mldsa44 = nist (3 ∷ 17 ∷ [])

abbrev pub oid_mldsa65 : Oid
oid_mldsa65 = nist (3 ∷ 18 ∷ [])

abbrev pub oid_mldsa87 : Oid
oid_mldsa87 = nist (3 ∷ 19 ∷ [])
