-- ===== src/Encode.antt =====
-- demo/encode.go: the parts that certificates and log entries share. The byte builder of
-- cryptobyte, times and X.509 names are parameters.
pub mod Oids
pub mod Extensions
pub mod Entry
pub mod Certificate
pub mod Properties
pub mod Order
pub mod Sorted
use merkle_tree_certs.Prelude.{ℕ, [], ◌&&◌, leb, if◌then◌else◌}
use merkle_tree_certs.Prelude.{Outcome, ok, found, ◌>>=◌}
use merkle_tree_certs.Log.Hash.{Bytes}
use merkle_tree_certs.Config.Version.{
  DraftVersion, version_plants04, version_plants06, version_plants07, version_le,
}
use merkle_tree_certs.Config.AnchorId.{id_string}
use merkle_tree_certs.Config.Structs.{X509, CertConfigBase, SubjectConfig}
use merkle_tree_certs.Cryptobyte.{Cryptobyte, Tag, Build, BuildError, ◌+++◌, around, oid_of}
use merkle_tree_certs.Encode.Oids.{
  oid_mtc_proof, oid_mtc_proof_experiment1, oid_alg_unsigned, oid_rdna_trust_anchor_id,
  oid_rdna_trust_anchor_id_experiment1, oid_rdna_trust_anchor_id_experiment2, oid_rdna_unsigned,
}

module _ (cb : Cryptobyte) where
  abbrev pub add_asn1_implicit_string : Tag → Bytes → Build
  add_asn1_implicit_string tag b = around (cb.add_asn1 tag) (ok b)

  abbrev pub add_asn1_explicit_tag : ℕ → Tag → Build → Build
  add_asn1_explicit_tag outer inner child =
      around (cb.add_asn1 (Tag.constructed outer)) (around (cb.add_asn1 inner) child)

  unfoldable pub add_x509_v3_version : Build
  add_x509_v3_version = around (cb.add_asn1 (Tag.constructed 0)) (ok (cb.add_asn1_uint64 2))

  unfoldable pub add_mtc_proof_sig_alg : DraftVersion → Build
  add_mtc_proof_sig_alg version = around (cb.add_asn1 Tag.sequence) (
      if version_le version_plants07 version
      then oid_of cb oid_mtc_proof
      else oid_of cb oid_mtc_proof_experiment1)

  unfoldable pub add_unsigned_sig_alg : Build
  add_unsigned_sig_alg = around (cb.add_asn1 Tag.sequence) (oid_of cb oid_alg_unsigned)

  -- The attribute of the one RDN of a name.
  abbrev name_of : Build → Build
  name_of attr =
      around (cb.add_asn1 Tag.sequence)
        (around (cb.add_asn1 Tag.set) (around (cb.add_asn1 Tag.sequence) attr))

  unfoldable pub add_x509_name : DraftVersion → Bytes → Build
  add_x509_name version id = name_of (
      if version_le version_plants06 version
      then (if version_le version_plants07 version
          then oid_of cb oid_rdna_trust_anchor_id
          else oid_of cb oid_rdna_trust_anchor_id_experiment2)
        +++ around (cb.add_asn1 Tag.relative_oid) (ok id)
      else oid_of cb oid_rdna_trust_anchor_id_experiment1
        +++ around (cb.add_asn1 Tag.utf8_string) (ok (id_string id)))

  unfoldable pub add_unsigned_x509_name_placeholder : Build
  add_unsigned_x509_name_placeholder =
      name_of (oid_of cb oid_rdna_unsigned +++ around (cb.add_asn1 Tag.utf8_string) (ok []))

  module _ (x509 : X509) where
    unfoldable pub add_x509_time : x509.Time → Build
    add_x509_time t =
        let y = x509.utc_year t in
        if leb 1950 y && leb y 2049
        then found BuildError.bad_time (x509.add_asn1_utc_time t)
        else found BuildError.bad_time (x509.add_asn1_generalized_time t)

    unfoldable pub add_validity : CertConfigBase x509 → Build
    add_validity config =
        around (cb.add_asn1 Tag.sequence)
          (add_x509_time config.not_before +++ add_x509_time config.not_after)

    unfoldable pub add_subject : SubjectConfig → Build
    add_subject subject = found BuildError.bad_name (x509.marshal_name subject)

  -- From draft plants-04 on, entries and proofs have a field of extensions.
  unfoldable pub add_mtc_entry_extensions : DraftVersion → Bytes → Build
  add_mtc_entry_extensions version exts =
      if version_le version_plants04 version then around cb.add_uint16_prefixed (ok exts) else ok []

  unfoldable pub add_mtc_proof_signatures : DraftVersion → Build → Build
  add_mtc_proof_signatures version f =
      if version_le version_plants06 version
      then around cb.add_uint24_prefixed f
      else around cb.add_uint16_prefixed f
