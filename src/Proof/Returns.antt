-- ===== src/Proof/Returns.antt =====
-- `parseMTCProof` of demo/verify_proof.go returns: its loops end, as each round reads bytes.
use merkle_tree_certs.Prelude.{
  ℕ, zero, suc, ◌+◌, ◌≤◌, [], ◌∷◌, length, ltb, ◌==◌, not, Option, none, some, ◌≡◌, arith,
  Bool-cases, inl, inr, bytes_eq,
}
use merkle_tree_certs.Prelude.{
  ok, found, check, found-some, IsReturn, >>=-IsReturn, found-IsReturn, check-IsReturn,
}
use merkle_tree_certs.Log.Hash.{Bytes}
use merkle_tree_certs.Config.Version.{DraftVersion, version_plants04, version_lt}
use merkle_tree_certs.Cryptobyte.{Cryptobyte, IsCryptobyte, Tag}
use merkle_tree_certs.Encode.{add_mtc_proof_sig_alg}
use merkle_tree_certs.Proof.{
  Certificate, comes_after, ProofError, read_signatures, read_extensions, read_exts_raw,
  read_coordinate, read_mtc_proof_signatures, parse_signature, cert_signature_bytes,
  parse_mtc_proof,
}

module _ (cb : Cryptobyte) (laws : IsCryptobyte cb) where
  read_extensions-IsReturn :
      (f bound : ℕ) (s : Bytes) → length s ≤ f → IsReturn (read_extensions cb f bound s)
  unfolding read_extensions
  read_extensions-IsReturn f bound [] h = tt
  read_extensions-IsReturn zero bound (b ∷ bs) h = absurd (omega arith)
  read_extensions-IsReturn (suc f) bound (b ∷ bs) h =
      let bad = ProofError.malformed_proof in
      >>=-IsReturn (found bad (cb.read_uint16 (b ∷ bs))) _
        (found-IsReturn bad (cb.read_uint16 (b ∷ bs)))
        (λ x e1.
          >>=-IsReturn (found bad (cb.read_uint16_prefixed x.1)) _
            (found-IsReturn bad (cb.read_uint16_prefixed x.1))
            (λ y e2.
              >>=-IsReturn (check (not (ltb x.0 bound)) bad) _
                (check-IsReturn (not (ltb x.0 bound)) bad)
                (λ u e3.
                  let m1 =
                    laws.uint16.more (b ∷ bs) x.0 x.1
                      (found-some bad (cb.read_uint16 (b ∷ bs)) x e1) in
                  let m2 =
                    laws.uint16_prefixed.more x.1 y.0 y.1
                      (found-some bad (cb.read_uint16_prefixed x.1) y e2) in
                  >>=-IsReturn (read_extensions cb f (x.0 + 1) y.1) _
                    (read_extensions-IsReturn f (x.0 + 1) y.1 (omega arith)) (λ z e4. tt))))

  read_signatures-IsReturn :
      (f : ℕ) (prev : Option Bytes) (s : Bytes)
      → length s ≤ f
      → IsReturn (read_signatures cb f prev s)
  unfolding read_signatures
  read_signatures-IsReturn f prev [] h = tt
  read_signatures-IsReturn zero prev (b ∷ bs) h = absurd (omega arith)
  read_signatures-IsReturn (suc f) prev (b ∷ bs) h =
      let bad = ProofError.malformed_signature in
      >>=-IsReturn (found bad (cb.read_uint8_prefixed (b ∷ bs))) _
        (found-IsReturn bad (cb.read_uint8_prefixed (b ∷ bs)))
        (λ x e1.
          >>=-IsReturn (check (not (length x.0 == 0)) bad) _
            (check-IsReturn (not (length x.0 == 0)) bad)
            (λ u e2.
              >>=-IsReturn (found bad (cb.read_uint16_prefixed x.1)) _
                (found-IsReturn bad (cb.read_uint16_prefixed x.1))
                (λ y e3.
                  >>=-IsReturn (check (comes_after prev x.0) ProofError.not_canonical) _
                    (check-IsReturn (comes_after prev x.0) ProofError.not_canonical)
                    (λ w e4.
                      let m1 =
                        laws.uint8_prefixed.more (b ∷ bs) x.0 x.1
                          (found-some bad (cb.read_uint8_prefixed (b ∷ bs)) x e1) in
                      let m2 =
                        laws.uint16_prefixed.more x.1 y.0 y.1
                          (found-some bad (cb.read_uint16_prefixed x.1) y e3) in
                      >>=-IsReturn (read_signatures cb f (some x.0) y.1) _
                        (read_signatures-IsReturn f (some x.0) y.1 (omega arith)) (λ z e5. tt)))))

  read_exts_raw-IsReturn : (v : DraftVersion) (s : Bytes) → IsReturn (read_exts_raw cb v s)
  read_exts_raw-IsReturn v s = elim (Bool-cases (version_lt v version_plants04)) [
    | inl t ↦ rw t tt
    | inr f ↦ rw f (found-IsReturn ProofError.malformed_proof (cb.read_uint16_prefixed s))
  ]

  read_coordinate-IsReturn : (v : DraftVersion) (s : Bytes) → IsReturn (read_coordinate cb v s)
  read_coordinate-IsReturn v s = elim (Bool-cases (version_lt v version_plants04)) [
    | inl t ↦ rw t (found-IsReturn ProofError.malformed_proof (cb.read_uint64 s))
    | inr f ↦ rw f (found-IsReturn ProofError.malformed_proof (cb.read_uint48 s))
  ]

  parse_signature-IsReturn : (v : DraftVersion) (sig : Bytes) → IsReturn (parse_signature cb v sig)
  unfolding parse_signature
  parse_signature-IsReturn v sig =
      let bad = ProofError.malformed_proof in
      >>=-IsReturn (read_exts_raw cb v sig) _ (read_exts_raw-IsReturn v sig) (λ a e1.
        >>=-IsReturn (read_coordinate cb v a.1) _ (read_coordinate-IsReturn v a.1) (λ b e2.
          >>=-IsReturn (read_coordinate cb v b.1) _ (read_coordinate-IsReturn v b.1) (λ c e3.
            >>=-IsReturn (read_extensions cb (length a.0) 0 a.0) _
              (read_extensions-IsReturn (length a.0) 0 a.0 (omega arith))
              (λ exts e4.
                >>=-IsReturn (found bad (cb.read_uint16_prefixed c.1)) _
                  (found-IsReturn bad (cb.read_uint16_prefixed c.1))
                  (λ d e5.
                    >>=-IsReturn (found bad (read_mtc_proof_signatures cb v d.1)) _
                      (found-IsReturn bad (read_mtc_proof_signatures cb v d.1))
                      (λ g e6.
                        >>=-IsReturn (check (length g.1 == 0) bad) _
                          (check-IsReturn (length g.1 == 0) bad)
                          (λ u e7.
                            >>=-IsReturn (read_signatures cb (length g.0) none g.0) _
                              (read_signatures-IsReturn (length g.0) none g.0 (omega arith))
                              (λ z e8. tt))))))))

  cert_signature_bytes-IsReturn : (cert : Certificate) → IsReturn (cert_signature_bytes cb cert)
  unfolding cert_signature_bytes
  cert_signature_bytes-IsReturn cert =
      let bad = ProofError.partial_byte in
      >>=-IsReturn (found bad (cb.read_asn1 Tag.sequence cert.raw)) _
        (found-IsReturn bad (cb.read_asn1 Tag.sequence cert.raw))
        (λ a e1.
          >>=-IsReturn (found bad (cb.read_asn1 Tag.sequence a.0)) _
            (found-IsReturn bad (cb.read_asn1 Tag.sequence a.0))
            (λ b e2.
              >>=-IsReturn (found bad (cb.read_asn1 Tag.sequence b.1)) _
                (found-IsReturn bad (cb.read_asn1 Tag.sequence b.1))
                (λ c e3.
                  >>=-IsReturn (found bad (cb.read_bit_string_bytes c.1)) _
                    (found-IsReturn bad (cb.read_bit_string_bytes c.1)) (λ d e4. tt))))

  -- Where the algorithm identifier of the draft can be built, `parseMTCProof` returns a proof or an
  -- error for every certificate: it does not panic, and its loops end within as many rounds as they
  -- have bytes to read.
  pub parse_mtc_proof-IsReturn :
      (v : DraftVersion) (cert : Certificate) (alg : Bytes)
      → add_mtc_proof_sig_alg cb v ≡ ok alg
      → IsReturn (parse_mtc_proof cb v cert)
  unfolding parse_mtc_proof
  parse_mtc_proof-IsReturn v cert alg built = rw built (
      >>=-IsReturn (check (bytes_eq cert.raw_signature_algorithm alg) ProofError.not_mtc_proof) _
        (check-IsReturn (bytes_eq cert.raw_signature_algorithm alg) ProofError.not_mtc_proof)
        (λ u e1.
          >>=-IsReturn (cert_signature_bytes cb cert) _ (cert_signature_bytes-IsReturn cert)
            (λ sig e2. parse_signature-IsReturn v sig)))
