-- ===== src/Proof.antt =====
-- `parseMTCProof` of demo/verify_proof.go, with the fields of `x509.Certificate` that the code
-- reads.
pub mod Ordered
pub mod RoundTrip
pub mod Returns
pub mod Issued
use merkle_tree_certs.Prelude.{
  ℕ, zero, suc, ◌+◌, List, [], ◌∷◌, length, ltb, ◌==◌, Bool, true, false, not, if◌then◌else◌,
  Option, none, some, bytes_eq,
}
use merkle_tree_certs.Prelude.{Outcome, ok, err, panic, stuck, found, check, ◌>>=◌, ◌>>◌}
use merkle_tree_certs.Log.Hash.{Bytes}
use merkle_tree_certs.Config.Version.{
  DraftVersion, version_plants04, version_plants06, version_le, version_lt,
}
use merkle_tree_certs.Cryptobyte.{Cryptobyte, Tag, Oid, Build}
use merkle_tree_certs.Encode.{add_mtc_proof_sig_alg}
use merkle_tree_certs.Encode.Certificate.{Comparison, less, equal, greater, compare_cosigner_ids}

-- What `x509.ParseCertificate` gives of a certificate.
pub record Certificate : Type 0 where
  pub raw : Bytes
  pub raw_signature_algorithm : Bytes
  pub raw_issuer : Bytes
  pub raw_subject : Bytes
  pub raw_tbs_certificate : Bytes
  pub raw_subject_public_key_info : Bytes
  pub extensions : List (Oid × Bytes)

pub record ParsedEntryExtension : Type 0 where
  pub ext_type : ℕ
  pub ext_value : Bytes

pub record ParsedSignature : Type 0 where
  pub cosigner_id : Bytes
  pub signature : Bytes

pub record ParsedProof : Type 0 where
  pub entry_exts_raw : Bytes
  pub entry_exts : List ParsedEntryExtension
  pub start : ℕ
  pub end : ℕ
  pub inclusion_proof : Bytes
  pub signatures : List ParsedSignature

pub data ProofError : Type 0 where
  not_mtc_proof partial_byte malformed_proof malformed_signature not_canonical : ProofError

-- `b.BytesOrPanic()`
abbrev pub bytes_or_panic {ℓ} : {E : Type ℓ} → Build → Outcome E Bytes
bytes_or_panic (ok bs) = ok bs
bytes_or_panic (err e) = panic
bytes_or_panic panic = panic
bytes_or_panic stuck = stuck

abbrev pub is_less : Comparison → Bool
is_less less = true
is_less equal = false
is_less greater = false

-- `prevID != nil && compareCosignerIDs(prevID, cosignerID) >= 0` is an error.
abbrev pub comes_after : Option Bytes → Bytes → Bool
comes_after none id = true
comes_after (some prev) id = is_less (compare_cosigner_ids prev id)

module _ (cb : Cryptobyte) where
  abbrev pub read_mtc_proof_signatures : DraftVersion → Bytes → Option (Bytes × Bytes)
  read_mtc_proof_signatures version s =
      if version_le version_plants06 version
      then cb.read_uint24_prefixed s
      else cb.read_uint16_prefixed s

  -- `for !entryExts.Empty()`, with `lastExtType + 1` for a bound on the types.
  unfoldable pub read_extensions : ℕ → ℕ → Bytes → Outcome ProofError (List ParsedEntryExtension)
  read_extensions fuel bound [] = ok []
  read_extensions zero bound (b ∷ bs) = stuck
  read_extensions (suc fuel) bound (b ∷ bs) = do
    (ext_type, s) ← found ProofError.malformed_proof (cb.read_uint16 (b ∷ bs))
    (ext_value, rest) ← found ProofError.malformed_proof (cb.read_uint16_prefixed s)
    check (not (ltb ext_type bound)) ProofError.malformed_proof
    exts ← read_extensions fuel (ext_type + 1) rest
    let ext : ParsedEntryExtension = record { ext_type = ext_type; ext_value = ext_value }
    ok (ext ∷ exts)

  -- `for !sigs.Empty()`
  unfoldable pub read_signatures :
      ℕ → Option Bytes → Bytes → Outcome ProofError (List ParsedSignature)
  read_signatures fuel prev [] = ok []
  read_signatures zero prev (b ∷ bs) = stuck
  read_signatures (suc fuel) prev (b ∷ bs) = do
    (id, s) ← found ProofError.malformed_signature (cb.read_uint8_prefixed (b ∷ bs))
    check (not (length id == 0)) ProofError.malformed_signature
    (sig, rest) ← found ProofError.malformed_signature (cb.read_uint16_prefixed s)
    check (comes_after prev id) ProofError.not_canonical
    sigs ← read_signatures fuel (some id) rest
    let parsed : ParsedSignature = record { cosigner_id = id; signature = sig }
    ok (parsed ∷ sigs)

  -- Before draft plants-04 there is no field of extensions, and coordinates have 64 bits.
  abbrev pub read_exts_raw : DraftVersion → Bytes → Outcome ProofError (Bytes × Bytes)
  read_exts_raw version s =
      if version_lt version version_plants04
      then ok ([], s)
      else found ProofError.malformed_proof (cb.read_uint16_prefixed s)

  abbrev pub read_coordinate : DraftVersion → Bytes → Outcome ProofError (ℕ × Bytes)
  read_coordinate version s =
      if version_lt version version_plants04
      then found ProofError.malformed_proof (cb.read_uint64 s)
      else found ProofError.malformed_proof (cb.read_uint48 s)

  -- The rest of `parseMTCProof`, from the bytes of the signature on.
  unfoldable pub parse_signature : DraftVersion → Bytes → Outcome ProofError ParsedProof
  parse_signature version sig = do
    (raw, s1) ← read_exts_raw version sig
    (start, s2) ← read_coordinate version s1
    (end, s3) ← read_coordinate version s2
    exts ← read_extensions (length raw) 0 raw
    (proof, s4) ← found ProofError.malformed_proof (cb.read_uint16_prefixed s3)
    (sigs, s5) ← found ProofError.malformed_proof (read_mtc_proof_signatures version s4)
    check (length s5 == 0) ProofError.malformed_proof
    signatures ← read_signatures (length sigs) none sigs
    ok (record {
      entry_exts_raw = raw;
      entry_exts = exts;
      start = start;
      end = end;
      inclusion_proof = proof;
      signatures = signatures;
    })

  unfoldable pub cert_signature_bytes : Certificate → Outcome ProofError Bytes
  cert_signature_bytes cert = do
    (seq, _) ← found ProofError.partial_byte (cb.read_asn1 Tag.sequence cert.raw)
    (_, s1) ← found ProofError.partial_byte (cb.read_asn1 Tag.sequence seq)
    (_, s2) ← found ProofError.partial_byte (cb.read_asn1 Tag.sequence s1)
    (sig, _) ← found ProofError.partial_byte (cb.read_bit_string_bytes s2)
    ok sig

  unfoldable pub parse_mtc_proof : DraftVersion → Certificate → Outcome ProofError ParsedProof
  parse_mtc_proof version cert = do
    alg ← bytes_or_panic (add_mtc_proof_sig_alg cb version)
    check (bytes_eq cert.raw_signature_algorithm alg) ProofError.not_mtc_proof
    sig ← cert_signature_bytes cert
    parse_signature version sig
