-- ===== src/Encode/Certificate.antt =====
-- `CreateCertificate` and `CreateCACertificate` of demo/encode.go.
use merkle_tree_certs.Prelude.{
  ℕ, zero, suc, ◌+◌, ◌-◌, ◌*◌, ◌^◌, ◌%◌, bit_or, List, [], ◌∷◌, ◌++◌, length, get_or, ltb, ◌==◌,
  Bool, false, not, ◌&&◌, if◌then◌else◌, some,
}
use merkle_tree_certs.Prelude.{Outcome, ok, err, lift_err, found, check, bit_xor, ◌>>=◌, ◌>>◌}
use merkle_tree_certs.Log.Hash.{Bytes, HashValue, Digest}
use merkle_tree_certs.Log.Tree.{MerkleTree}
use merkle_tree_certs.Log.Subtree.{LogError, subtree_hash}
use merkle_tree_certs.Log.Inclusion.{subtree_inclusion_proof}
use merkle_tree_certs.Config.Version.{DraftVersion, version_plants04, version_le}
use merkle_tree_certs.Config.AnchorId.{log_id}
use merkle_tree_certs.Config.Structs.{
  X509, CaConfig, EntryConfig, CertificateConfig, Cosignature, SerialConfig,
}
use merkle_tree_certs.Cryptobyte.{Cryptobyte, Tag, Build, BuildError, ◌+++◌, around}
use merkle_tree_certs.Cosign.{KeyLibrary}
use merkle_tree_certs.Cosign.Message.{CosignError, add_trust_anchor_id}
use merkle_tree_certs.Cosign.Sign.{SignatureLibrary, Cosigner, sign}
use merkle_tree_certs.Encode.{
  add_x509_v3_version, add_mtc_proof_sig_alg, add_x509_name, add_validity, add_unsigned_sig_alg,
  add_unsigned_x509_name_placeholder, add_mtc_entry_extensions, add_mtc_proof_signatures,
}
use merkle_tree_certs.Encode.Extensions.{MtcCaInfo, add_extensions}
use merkle_tree_certs.Encode.Entry.{add_tbs_certificate, or_override}

-- What keeps a certificate from being made.
pub data CertificateError : Type 0 where
  null_entry no_public_key bad_min_serial bad_max_serial : CertificateError
  log_error : LogError → CertificateError
  cosign_error : CosignError → CertificateError
  build_error : BuildError → CertificateError

-- `cmp.Compare`, `bytes.Compare` and their `cmp.Or`: -1, 0 and 1.
pub data Comparison : Type 0 where
  less equal greater : Comparison

abbrev pub compare_numbers : ℕ → ℕ → Comparison
compare_numbers a b = if ltb a b then less else if a == b then equal else greater

abbrev pub or_else : Comparison → Comparison → Comparison
or_else less d = less
or_else equal d = d
or_else greater d = greater

abbrev pub compare_bytes : Bytes → Bytes → Comparison
compare_bytes [] [] = equal
compare_bytes [] (y ∷ ys) = less
compare_bytes (x ∷ xs) [] = greater
compare_bytes (x ∷ xs) (y ∷ ys) = or_else (compare_numbers x y) (compare_bytes xs ys)

unfoldable pub compare_cosigner_ids : Bytes → Bytes → Comparison
compare_cosigner_ids a b = or_else (compare_numbers (length a) (length b)) (compare_bytes a b)

-- `slices.SortedFunc`. It may leave equal IDs in any order; here they keep theirs.
abbrev pub place :
    Comparison → Cosignature → Cosignature → List Cosignature → List Cosignature → List Cosignature
place less c d ds later = c ∷ d ∷ ds
place equal c d ds later = c ∷ d ∷ ds
place greater c d ds later = d ∷ later

abbrev pub insert_sorted : Cosignature → List Cosignature → List Cosignature
insert_sorted c [] = c ∷ []
insert_sorted c (d ∷ ds) =
    place (compare_cosigner_ids c.cosigner_id d.cosigner_id) c d ds (insert_sorted c ds)

unfoldable pub sort_cosignatures : List Cosignature → List Cosignature
sort_cosignatures [] = []
sort_cosignatures (c ∷ cs) = insert_sorted c (sort_cosignatures cs)

-- `x[len(x)-1]&1 != 0` of a signature that is not empty.
abbrev pub ends_odd : Bytes → Bool
ends_odd [] = false
ends_odd (b ∷ bs) = get_or (b ∷ bs) (length bs) 0 % 2 == 1

abbrev pub last_ends_odd : List Cosignature → Bool
last_ends_odd [] = false
last_ends_odd (c ∷ []) = ends_odd c.signature
last_ends_odd (c ∷ d ∷ cs) = last_ends_odd (d ∷ cs)

-- `proof[0] ^= 1`
abbrev pub flip_first : Bytes → Outcome CertificateError Bytes
flip_first [] = err (CertificateError.build_error BuildError.empty_proof)
flip_first (b ∷ bs) = ok (bit_xor b 1 ∷ bs)

module _ (cb : Cryptobyte) where
  unfoldable pub add_cosignatures : List Cosignature → Build
  add_cosignatures [] = ok []
  add_cosignatures (c ∷ cs) =
      add_trust_anchor_id cb c.cosigner_id
      +++ (around cb.add_uint16_prefixed (ok c.signature) +++ add_cosignatures cs)

  unfoldable pub add_coordinates : DraftVersion → ℕ → ℕ → Build
  add_coordinates version start end =
      if version_le version_plants04 version
      then ok (cb.add_uint48 start) +++ ok (cb.add_uint48 end)
      else ok (cb.add_uint64 start) +++ ok (cb.add_uint64 end)

  -- The MTCProof.
  unfoldable pub add_mtc_proof : DraftVersion → Bytes → ℕ → ℕ → Bytes → List Cosignature → Build
  add_mtc_proof version exts start end proof cosigs =
      add_mtc_entry_extensions cb version exts
      +++ (add_coordinates version start end
          +++ (around cb.add_uint16_prefixed (ok proof)
              +++ add_mtc_proof_signatures cb version (add_cosignatures cosigs)))

  module _ (keys : KeyLibrary) (lib : SignatureLibrary keys) (rand : ℕ → ℕ → ℕ) where
    -- The signatures of all cosigners, in one attempt.
    unfoldable pub cosign_all :
        ℕ
        → ℕ
        → List (Cosigner keys lib)
        → Bytes
        → ℕ
        → ℕ
        → HashValue
        → Outcome CosignError (List Cosignature)
    cosign_all attempt i [] log_id start end hash = ok []
    cosign_all attempt i (c ∷ cs) log_id start end hash = do
      sig ← sign keys lib cb c (rand attempt i) log_id start end hash
      rest ← cosign_all attempt (i + 1) cs log_id start end hash
      let cosig : Cosignature = record { cosigner_id = c.id; signature = sig }
      ok (cosig ∷ rest)

    -- From `RetryCosigs`, with `left` attempts more where the last signature must end in a zero.
    unfoldable pub cosignatures :
        ℕ
        → ℕ
        → DraftVersion
        → CertificateConfig
        → List (Cosigner keys lib)
        → Bytes
        → ℕ
        → ℕ
        → HashValue
        → Outcome CosignError (List Cosignature)
    cosignatures zero attempt version config cosigners log_id start end hash = do
      made ← cosign_all attempt 0 cosigners log_id start end hash
      let cosigs = config.extra_cosignatures ++ made
      ok (
          if not config.dont_sort_cosigners && version_le version_plants04 version
          then sort_cosignatures cosigs
          else cosigs)
    cosignatures (suc left) attempt version config cosigners log_id start end hash =
        let again =
          cosignatures left (attempt + 1) version config cosigners log_id start end hash in
        do
          made ← cosign_all attempt 0 cosigners log_id start end hash
          let cosigs = config.extra_cosignatures ++ made
          let sorted =
              (if not config.dont_sort_cosigners && version_le version_plants04 version
                then sort_cosignatures cosigs
                else cosigs)
          if config.unused_bit && last_ends_odd sorted then again else ok sorted

    module _ (x509 : X509) (sha256 : Digest) where
      -- The log number takes the upper 16 bits from draft plants-04 on.
      unfoldable pub serial_of : CaConfig x509 → ℕ → Outcome CertificateError ℕ
      serial_of config index =
          if version_le version_plants04 config.version
          then (do
            check (not (ltb (2 ^ 48 - 1) index))
                (CertificateError.build_error BuildError.invalid_serial)
            ok (bit_or index (config.log_number * 2 ^ 48 % 2 ^ 64)))
          else ok index

      -- The contents of the BIT STRING: the number of unused bits and the MTCProof.
      unfoldable pub certificate_signature :
          MerkleTree
          → CaConfig x509
          → EntryConfig x509
          → CertificateConfig
          → ℕ
          → ℕ
          → ℕ
          → List Cosignature
          → Outcome CertificateError Bytes
      certificate_signature log config entry cert_config index start end cosigs = do
        proof ←
            lift_err CertificateError.log_error (subtree_inclusion_proof sha256 log index start end)
        flipped ← if cert_config.bit_flip_proof then flip_first proof else ok proof
        body ←
            lift_err CertificateError.build_error
              (add_mtc_proof config.version entry.mtc_entry_extensions start end flipped cosigs)
        let sig = (if cert_config.unused_bit then 1 else 0) ∷ body
        check (not (cert_config.unused_bit && ends_odd sig))
            (CertificateError.build_error BuildError.unused_bit_set)
        ok sig

      unfoldable pub create_certificate :
          CaConfig x509
          → MerkleTree
          → List (Cosigner keys lib)
          → EntryConfig x509
          → CertificateConfig
          → ℕ
          → ℕ
          → ℕ
          → Outcome CertificateError Bytes
      create_certificate config log cosigners entry cert_config index start end = do
        check (not entry.null) CertificateError.null_entry
        subtree ← lift_err CertificateError.log_error (subtree_hash sha256 log start end)
        cosigs ← lift_err CertificateError.cosign_error (
            cosignatures 32 0 config.version cert_config cosigners
              (log_id config.version config.id config.log_number) start end subtree)
        serial ← serial_of config index
        tbs ←
            lift_err CertificateError.build_error
              (add_tbs_certificate cb x509 config.version config.id serial entry cert_config)
        alg ← lift_err CertificateError.build_error (
            or_override cb x509 cert_config.override_signature_algorithm
              (add_mtc_proof_sig_alg cb config.version))
        sig ← certificate_signature log config entry cert_config index start end cosigs
        lift_err CertificateError.build_error (
            around (cb.add_asn1 Tag.sequence)
              (ok tbs +++ (ok alg +++ around (cb.add_asn1 Tag.bit_string) (ok sig))))

      abbrev pub serial_number : SerialConfig → ℕ
      serial_number s = bit_or (s.log * 2 ^ 48 % 2 ^ 64) s.index

      unfoldable pub create_ca_certificate :
          CaConfig x509 → Cosigner keys lib → Outcome CertificateError Bytes
      create_ca_certificate config cosigner = do
        spki ←
            found CertificateError.no_public_key
              (lib.marshal_pkix_public_key (lib.public cosigner.signer))
        check (ltb config.ca_cert.min_serial.index (2 ^ 48)) CertificateError.bad_min_serial
        check (ltb config.ca_cert.max_serial.index (2 ^ 48)) CertificateError.bad_max_serial
        let info : MtcCaInfo = record {
          version = config.version;
          signature_algorithm = cosigner.signature_algorithm;
          min_serial = serial_number config.ca_cert.min_serial;
          max_serial = serial_number config.ca_cert.max_serial;
          override_oid = config.ca_cert.override_mtc_ca_extension_oid;
          override_value = config.ca_cert.override_mtc_ca_extension_value;
        }
        let tbs =
            (add_x509_v3_version cb
              +++ (ok (cb.add_asn1_uint64 1)
                  +++ (add_unsigned_sig_alg cb
                      +++ (add_unsigned_x509_name_placeholder cb
                          +++ (add_validity cb x509 config.ca_cert.base
                              +++ (add_x509_name cb config.version config.id
                                  +++ (ok spki
                                      +++ add_extensions cb x509 config.ca_cert.base
                                          (some info))))))))
        lift_err CertificateError.build_error (
            around (cb.add_asn1 Tag.sequence) (
              around (cb.add_asn1 Tag.sequence) tbs
              +++ (add_unsigned_sig_alg cb +++ found BuildError.too_long (cb.add_bit_string []))))
