-- ===== src/Proof/Ordered.antt =====
-- What the proofs that `parseMTCProof` of demo/verify_proof.go returns are like, and that it always
-- returns.
use merkle_tree_certs.Prelude.{
  ℕ, zero, suc, ◌+◌, ◌<◌, ◌≤◌, ◌^◌, List, [], ◌∷◌, length, All, All-weaken, ltb, ◌==◌, true, not,
  Option, none, some, ◌≡◌, refl, ap, arith, Bool-cases, inl, inr, bytes_eq,
}
use merkle_tree_certs.Prelude.{ok, found, check, passed, found-some, >>=-eq-ok, ok_subst}
use merkle_tree_certs.Log.Hash.{Bytes}
use merkle_tree_certs.Config.Version.{DraftVersion, version_plants04, version_lt}
use merkle_tree_certs.Cryptobyte.{Cryptobyte, IsCryptobyte}
use merkle_tree_certs.Encode.Certificate.{Comparison, less, equal, greater, compare_cosigner_ids}
use merkle_tree_certs.Encode.Order.{Ascending, Ascending_before}
use merkle_tree_certs.Proof.{
  Certificate, is_less, comes_after, ParsedSignature, ParsedEntryExtension, ParsedProof, ProofError,
  bytes_or_panic, read_signatures, read_extensions, read_exts_raw, read_coordinate,
  read_mtc_proof_signatures, parse_signature, cert_signature_bytes, parse_mtc_proof,
}
use merkle_tree_certs.Encode.{add_mtc_proof_sig_alg}
use merkle_tree_certs.Proof.RoundTrip.{coordinate_bits}

abbrev pub signers : List ParsedSignature → List Bytes
signers [] = []
signers (s ∷ sigs) = s.cosigner_id ∷ signers sigs

-- Types that start at `bound`, each higher than the one before it.
abbrev pub TypesFrom : ℕ → List ParsedEntryExtension → Type 0
TypesFrom bound [] = Unit {0}
TypesFrom bound (x ∷ exts) =
    (bound ≤ x.ext_type) × (x.ext_type < 2 ^ 16) × TypesFrom (x.ext_type + 1) exts

is_less-true : (c : Comparison) → is_less c ≡ true → c ≡ less
is_less-true less e = refl
is_less-true equal e = cc
is_less-true greater e = cc

-- What the parser guarantees of a proof.
pub record IsCanonical (v : DraftVersion) (p : ParsedProof) : Type 0 where
  pub types : TypesFrom 0 p.entry_exts
  pub start : p.start < 2 ^ coordinate_bits v
  pub end : p.end < 2 ^ coordinate_bits v
  pub full : All (λ id. 0 < length id) (signers p.signatures)
  pub up : Ascending (signers p.signatures)

module _ (cb : Cryptobyte) (laws : IsCryptobyte cb) where
  read_extensions-TypesFrom :
      (f bound : ℕ) (s : Bytes) (exts : List ParsedEntryExtension)
      → read_extensions cb f bound s ≡ ok exts
      → TypesFrom bound exts
  unfolding read_extensions
  read_extensions-TypesFrom f bound [] exts e = ok_subst (TypesFrom bound) e tt
  read_extensions-TypesFrom zero bound (b ∷ bs) exts e = cc
  read_extensions-TypesFrom (suc f) bound (b ∷ bs) exts e =
      let ((ty, s1), e1, f1) =
        >>=-eq-ok (found ProofError.malformed_proof (cb.read_uint16 (b ∷ bs))) _ e in
      let ((val, s2), e2, f2) =
        >>=-eq-ok (found ProofError.malformed_proof (cb.read_uint16_prefixed s1)) _ f1 in
      let (u, e3, f3) = >>=-eq-ok (check (not (ltb ty bound)) ProofError.malformed_proof) _ f2 in
      let (rest, e4, f4) = >>=-eq-ok (read_extensions cb f (ty + 1) s2) _ f3 in
      let high = passed (not (ltb ty bound)) ProofError.malformed_proof e3 in
      let small =
        laws.uint16.small (b ∷ bs) ty s1
          (found-some ProofError.malformed_proof (cb.read_uint16 (b ∷ bs)) (ty, s1) e1) in
      ok_subst (TypesFrom bound) f4
        (ground arith, small, read_extensions-TypesFrom f (ty + 1) s2 rest e4)

  -- The signers of a list that was read come after `prev`.
  read_signatures-Ascending :
      (f : ℕ) (prev : Option Bytes) (s : Bytes) (sigs : List ParsedSignature)
      → read_signatures cb f prev s ≡ ok sigs
      → Ascending (signers sigs)
        × All (λ id. 0 < length id) (signers sigs)
        × All (λ id. comes_after prev id ≡ true) (signers sigs)
  unfolding read_signatures
  read_signatures-Ascending f prev [] sigs e =
      ok_subst
        (λ t.
          Ascending (signers t)
          × All (λ id. 0 < length id) (signers t)
          × All (λ id. comes_after prev id ≡ true) (signers t))
        e (tt, tt, tt)
  read_signatures-Ascending zero prev (b ∷ bs) sigs e = cc
  read_signatures-Ascending (suc f) prev (b ∷ bs) sigs e =
      let ((id, s1), e1, f1) =
        >>=-eq-ok (found ProofError.malformed_signature (cb.read_uint8_prefixed (b ∷ bs))) _ e in
      let (u, e2, f2) =
        >>=-eq-ok (check (not (length id == 0)) ProofError.malformed_signature) _ f1 in
      let ((sig, s2), e3, f3) =
        >>=-eq-ok (found ProofError.malformed_signature (cb.read_uint16_prefixed s1)) _ f2 in
      let (w, e4, f4) = >>=-eq-ok (check (comes_after prev id) ProofError.not_canonical) _ f3 in
      let (rest, e5, f5) = >>=-eq-ok (read_signatures cb f (some id) s2) _ f4 in
      let full = passed (not (length id == 0)) ProofError.malformed_signature e2 in
      let after = passed (comes_after prev id) ProofError.not_canonical e4 in
      let (up, all_full, later) = read_signatures-Ascending f (some id) s2 rest e5 in
      let below =
        All-weaken (λ a. comes_after (some id) a ≡ true) (λ a. compare_cosigner_ids id a ≡ less)
          (signers rest) (λ a t. is_less-true (compare_cosigner_ids id a) t) later in
      ok_subst
        (λ t.
          Ascending (signers t)
          × All (λ id. 0 < length id) (signers t)
          × All (λ id. comes_after prev id ≡ true) (signers t))
        f5
        ((below, up), (ground arith, all_full), (after, chain prev id (signers rest) after below))
    where
      chain :
          (prev : Option Bytes) (id : Bytes) (cs : List Bytes)
          → comes_after prev id ≡ true
          → All (λ a. compare_cosigner_ids id a ≡ less) cs
          → All (λ a. comes_after prev a ≡ true) cs
      chain none id cs h below =
          All-weaken (λ a. compare_cosigner_ids id a ≡ less) (λ a. comes_after none a ≡ true) cs
            (λ a t. refl) below
      chain (some p) id cs h below =
          All-weaken (λ a. compare_cosigner_ids p a ≡ less) (λ a. comes_after (some p) a ≡ true) cs
            (λ a t. ap is_less t)
            (Ascending_before p id cs (is_less-true (compare_cosigner_ids p id) h) below)

  read_coordinate-small :
      (v : DraftVersion) (s : Bytes) (c : ℕ) (rest : Bytes)
      → read_coordinate cb v s ≡ ok (c, rest)
      → c < 2 ^ coordinate_bits v
  read_coordinate-small v s c rest e = elim (Bool-cases (version_lt v version_plants04)) [
    | inl t ↦ rw t (
        laws.uint64.small s c rest
          (found-some ProofError.malformed_proof (cb.read_uint64 s) (c, rest) (rw t at e)))
    | inr f ↦ rw f (
        laws.uint48.small s c rest
          (found-some ProofError.malformed_proof (cb.read_uint48 s) (c, rest) (rw f at e)))
  ]

  parse_signature-IsCanonical :
      (v : DraftVersion) (sig : Bytes) (p : ParsedProof)
      → parse_signature cb v sig ≡ ok p
      → IsCanonical v p
  unfolding parse_signature
  parse_signature-IsCanonical v sig p e =
      let bad = ProofError.malformed_proof in
      let ((raw, s1), e1, f1) = >>=-eq-ok (read_exts_raw cb v sig) _ e in
      let ((a, s2), e2, f2) = >>=-eq-ok (read_coordinate cb v s1) _ f1 in
      let ((b, s3), e3, f3) = >>=-eq-ok (read_coordinate cb v s2) _ f2 in
      let (exts, e4, f4) = >>=-eq-ok (read_extensions cb (length raw) 0 raw) _ f3 in
      let ((proof, s4), e5, f5) = >>=-eq-ok (found bad (cb.read_uint16_prefixed s3)) _ f4 in
      let ((sigs, s5), e6, f6) = >>=-eq-ok (found bad (read_mtc_proof_signatures cb v s4)) _ f5 in
      let (u, e7, f7) = >>=-eq-ok (check (length s5 == 0) bad) _ f6 in
      let (list, e8, f8) = >>=-eq-ok (read_signatures cb (length sigs) none sigs) _ f7 in
      let (up, full, _) = read_signatures-Ascending (length sigs) none sigs list e8 in
      ok_subst (IsCanonical v) f8 (record {
        types = read_extensions-TypesFrom (length raw) 0 raw exts e4;
        start = read_coordinate-small v s1 a s2 e2;
        end = read_coordinate-small v s2 b s3 e3;
        full = full;
        up = up;
      })

  -- In every proof that `parseMTCProof` returns, the types of the extensions increase and fit in 16
  -- bits, the coordinates fit in 48 bits, or in 64 before draft plants-04, and the cosigner IDs are
  -- not empty and each comes before all that follow it.
  pub parse_mtc_proof-IsCanonical :
      (v : DraftVersion) (cert : Certificate) (p : ParsedProof)
      → parse_mtc_proof cb v cert ≡ ok p
      → IsCanonical v p
  unfolding parse_mtc_proof
  parse_mtc_proof-IsCanonical v cert p e =
      let (alg, e1, f1) = >>=-eq-ok (bytes_or_panic (add_mtc_proof_sig_alg cb v)) _ e in
      let (u, e2, f2) =
        >>=-eq-ok (check (bytes_eq cert.raw_signature_algorithm alg) ProofError.not_mtc_proof) _
          f1 in
      let (sig, e3, f3) = >>=-eq-ok (cert_signature_bytes cb cert) _ f2 in
      parse_signature-IsCanonical v sig p f3
