-- ===== src/Proof/Issued.antt =====
-- From `CreateCertificate` of demo/encode.go to the verifier: what is parsed of the signature of a
-- certificate, and what its inclusion proof evaluates to.
use merkle_tree_certs.Prelude.{
  ℕ, ◌≤◌, ◌<◌, ◌^◌, List, [], ◌∷◌, length, All, ◌==◌, true, false, not, ◌&&◌, ◌≡◌, refl, arith,
  if◌then◌else◌, Bool-cases, inl, inr,
}
use merkle_tree_certs.Prelude.{Outcome, ok, check, lift_err, lift_err-ok, ok_subst, >>=-eq-ok}
use merkle_tree_certs.Log.Hash.{Bytes, HashValue, Digest, hash_size}
use merkle_tree_certs.Log.Tree.{MerkleTree}
use merkle_tree_certs.Log.Mth.{IsTreeOf}
use merkle_tree_certs.Log.Subtree.{subtree_hash}
use merkle_tree_certs.Log.Subtree.Valid.{IsSubtree}
use merkle_tree_certs.Log.Inclusion.{evaluate_subtree_inclusion_proof}
use merkle_tree_certs.Log.Inclusion.Correct.{evaluate-subtree_inclusion_proof}
use merkle_tree_certs.Config.Version.{DraftVersion, version_plants04, version_lt}
use merkle_tree_certs.Config.Structs.{X509, CaConfig, EntryConfig, CertificateConfig, Cosignature}
use merkle_tree_certs.Cryptobyte.{Cryptobyte, IsCryptobyte, BuildError}
use merkle_tree_certs.Cosign.{KeyLibrary}
use merkle_tree_certs.Cosign.Sign.{SignatureLibrary}
use merkle_tree_certs.Encode.Certificate.{
  CertificateError, certificate_signature, add_mtc_proof, sort_cosignatures, ends_odd,
}
use merkle_tree_certs.Encode.Sorted.{ids, sort_cosignatures-All, sort_cosignatures-Ascending}
use merkle_tree_certs.Encode.Order.{AreDistinct}
use merkle_tree_certs.Proof.{ParsedEntryExtension, read_extensions, parse_signature}
use merkle_tree_certs.Proof.RoundTrip.{coordinate_bits, proof_of, parse_signature-add_mtc_proof}

-- A coordinate of 48 bits fits in every draft.
fits : (v : DraftVersion) (c : ℕ) → c < 2 ^ 48 → c < 2 ^ coordinate_bits v
fits v c h = elim (Bool-cases (version_lt v version_plants04)) [
  | inl t ↦ rw t (omega arith)
  | inr f ↦ rw f h
]

module _ (cb : Cryptobyte) (laws : IsCryptobyte cb) (keys : KeyLibrary)
    (lib : SignatureLibrary keys) (rand : ℕ → ℕ → ℕ) (x509 : X509) (sha256 : Digest)
    (leaf : ℕ → HashValue) (mt : MerkleTree) (n : ℕ) (tree : IsTreeOf sha256 leaf mt n)
    (leaves : (i : ℕ) → length (leaf i) ≡ hash_size) (bound : n < 2 ^ 48) where
  -- For an entry of a subtree inside a tree of fewer than 2 ^ 48 entries, a configuration without
  -- deliberate faults, extensions that the parser accepts and cosignatures with different and not
  -- empty IDs, a signature that `CreateCertificate` makes of the sorted cosignatures is a zero byte
  -- and an MTCProof that is parsed to its parts. The inclusion proof in it turns the leaf hash of
  -- the entry into the hash of the subtree, which `SubtreeHash` returns for the cosigners to sign.
  pub parse_signature-certificate_signature :
      (config : CaConfig x509) (entry : EntryConfig x509) (how : CertificateConfig)
      (index start end : ℕ) (cosigs : List Cosignature) (es : List ParsedEntryExtension)
      (sig : Bytes)
      → IsSubtree start end
      → start ≤ index
      → index < end
      → end ≤ n
      → how.bit_flip_proof ≡ false
      → how.unused_bit ≡ false
      → (version_lt config.version version_plants04 ≡ true → entry.mtc_entry_extensions ≡ [])
      → read_extensions cb (length entry.mtc_entry_extensions) 0 entry.mtc_entry_extensions ≡ ok es
      → All (λ id. not (length id == 0) ≡ true) (ids cosigs)
      → AreDistinct (ids cosigs)
      → certificate_signature cb keys lib rand x509 sha256 mt config entry how index start end
          (sort_cosignatures cosigs)
        ≡ ok sig
      → (body : Bytes) × (proof : Bytes) × (h : HashValue) × (sig ≡ 0 ∷ body)
        × (parse_signature cb config.version body
            ≡ ok
                (proof_of entry.mtc_entry_extensions es start end proof (sort_cosignatures cosigs)))
        × (subtree_hash sha256 mt start end ≡ ok h)
        × (evaluate_subtree_inclusion_proof sha256 index start end (leaf index) proof ≡ ok h)
  unfolding certificate_signature
  parse_signature-certificate_signature config entry how index start end cosigs es sig sub lo hi
        within plain whole bare parsed full differ e =
      let (proof, h, made, hashed, evaluates, _) =
        evaluate-subtree_inclusion_proof sha256 leaf mt n tree leaves index start end sub lo hi
          within (omega arith) in
      let (body, e1, f1) =
        >>=-eq-ok
          (lift_err CertificateError.build_error (
            add_mtc_proof cb config.version entry.mtc_entry_extensions start end proof
              (sort_cosignatures cosigs)))
          _ (rw (made, plain) at e) in
      let built = lift_err-ok CertificateError.build_error _ body e1 in
      let (u, e2, f2) =
        >>=-eq-ok
          (check (not (how.unused_bit && ends_odd ((if how.unused_bit then 1 else 0) ∷ body)))
            (CertificateError.build_error BuildError.unused_bit_set))
          _ f1 in
      let signed : ◌≡◌ {A = Outcome CertificateError Bytes} (ok (0 ∷ body)) (ok sig) =
        rw whole at f2 in
      let (_, up) = sort_cosignatures-Ascending cosigs differ in
      (
        body,
        proof,
        h,
        ok_subst (λ t. t ≡ 0 ∷ body) signed refl,
        parse_signature-add_mtc_proof cb laws config.version entry.mtc_entry_extensions start end
            proof (sort_cosignatures cosigs) es body bare parsed
            (fits config.version start (omega arith)) (fits config.version end (omega arith))
            (sort_cosignatures-All (λ id. not (length id == 0) ≡ true) cosigs full) up built,
        hashed,
        evaluates,
      )
