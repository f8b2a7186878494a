-- ===== src/Encode/Entry.antt =====
-- The TBSCertificate and the log entries of demo/encode.go.
use merkle_tree_certs.Prelude.{ℕ, [], length, ◌==◌, not, if◌then◌else◌, none}
use merkle_tree_certs.Prelude.{Outcome, ok, found, check, ◌>>=◌, ◌>>◌}
use merkle_tree_certs.Log.Hash.{Bytes, Digest}
use merkle_tree_certs.Log.Inclusion.{or_panic}
use merkle_tree_certs.Config.Version.{
  DraftVersion, version_davidben10, version_plants02, version_le,
}
use merkle_tree_certs.Config.Structs.{X509, EntryConfig, CertificateConfig}
use merkle_tree_certs.Cryptobyte.{Cryptobyte, Tag, Build, BuildError, ◌+++◌, around}
use merkle_tree_certs.Encode.{
  add_x509_v3_version, add_mtc_proof_sig_alg, add_x509_name, add_validity, add_subject,
  add_mtc_entry_extensions,
}
use merkle_tree_certs.Encode.Extensions.{add_extensions}

-- `entryTypeNull` and `entryTypeTBSCert`
abbrev pub entry_type_null : ℕ
entry_type_null = 0

abbrev pub entry_type_tbs_cert : ℕ
entry_type_tbs_cert = 1

module _ (cb : Cryptobyte) (x509 : X509) where
  -- What an override puts in the place of an algorithm.
  abbrev pub or_override : Bytes → Build → Build
  or_override override usual = if not (length override == 0) then ok override else usual

  unfoldable pub add_tbs_certificate :
      DraftVersion → Bytes → ℕ → EntryConfig x509 → CertificateConfig → Build
  add_tbs_certificate version issuer serial entry cert_config = around (cb.add_asn1 Tag.sequence) (
      add_x509_v3_version cb
      +++ (ok (cb.add_asn1_uint64 serial)
          +++ (or_override cert_config.override_tbs_signature_algorithm
                (add_mtc_proof_sig_alg cb version)
              +++ (add_x509_name cb version issuer
                  +++ (add_validity cb x509 entry.base
                      +++ (add_subject cb x509 entry.subject
                          +++ (ok entry.public_key +++ add_extensions cb x509 entry.base none)))))))

  unfoldable pub marshal_null_entry : DraftVersion → Outcome BuildError Bytes
  marshal_null_entry version =
      or_panic (add_mtc_entry_extensions cb version [] +++ ok (cb.add_uint16 entry_type_null))

  -- The algorithm of a public key: the first element of a sequence that nothing follows.
  unfoldable pub public_key_algorithm : Bytes → Build
  public_key_algorithm spki = do
    (seq, rest) ← found BuildError.bad_public_key (cb.read_asn1 Tag.sequence spki)
    check (length rest == 0) BuildError.bad_public_key
    (alg, _) ← found BuildError.bad_public_key (cb.read_asn1_element Tag.sequence seq)
    ok alg

  module _ (sha256 : Digest) where
    unfoldable pub marshal_contents : DraftVersion → Bytes → EntryConfig x509 → Build
    marshal_contents version issuer entry =
        add_x509_v3_version cb
        +++ (add_x509_name cb version issuer
            +++ (add_validity cb x509 entry.base
                +++ (add_subject cb x509 entry.subject
                    +++ ((if version_le version_plants02 version
                          then public_key_algorithm entry.public_key
                          else ok [])
                        +++ (around (cb.add_asn1 Tag.octet_string)
                              (ok (sha256.sum entry.public_key))
                            +++ add_extensions cb x509 entry.base none)))))

    unfoldable pub marshal_tbs_certificate_log_entry :
        DraftVersion → Bytes → EntryConfig x509 → Build
    marshal_tbs_certificate_log_entry version issuer entry =
        let contents = marshal_contents version issuer entry in
        let marshaled =
          add_mtc_entry_extensions cb version entry.mtc_entry_extensions
          +++ (ok (cb.add_uint16 entry_type_tbs_cert)
              +++ (if version_le version_davidben10 version
                  then contents
                  else around (cb.add_asn1 Tag.sequence) contents)) in
        if entry.null then marshal_null_entry version else marshaled
