-- ===== src/Verify/Elements.antt =====
-- The DER elements that demo/encode.go builds, as demo/verify_proof.go reads them.
use merkle_tree_certs.Prelude.{[], ◌∷◌, ◌++◌, length, ◌==◌, ==_iff, some, ◌≡◌, refl, ap, ◌∙◌, arith}
use merkle_tree_certs.Prelude.{ok, found, found-some, check, passed, >>=-eq-ok, ok_subst}
use merkle_tree_certs.Log.Hash.{Bytes, Digest}
use merkle_tree_certs.Config.Version.{DraftVersion}
use merkle_tree_certs.Config.Structs.{X509, SubjectConfig, EntryConfig}
use merkle_tree_certs.Cryptobyte.{Cryptobyte, IsDer, Tag, BuildError, around-ok}
use merkle_tree_certs.Encode.{
  add_x509_v3_version, add_x509_name, add_validity, add_subject, add_mtc_proof_sig_alg,
}
use merkle_tree_certs.Encode.Entry.{public_key_algorithm}

module _ (cb : Cryptobyte) (der : IsDer cb) (x509 : X509) (sha256 : Digest)
    (names : (s : SubjectConfig) (bs : Bytes)
      → x509.marshal_name s ≡ some bs
      → (c : Bytes) × (cb.add_asn1 Tag.sequence c ≡ some bs)) where
  -- The builds of elements.
  pub version-element :
      (x : Bytes)
      → add_x509_v3_version cb ≡ ok x
      → (c : Bytes) × (cb.add_asn1 (Tag.constructed 0) c ≡ some x)
  unfolding add_x509_v3_version
  version-element x e =
      let (c, _, a) = around-ok (cb.add_asn1 (Tag.constructed 0)) (ok (cb.add_asn1_uint64 2)) x e in
      (c, a)

  pub algorithm-element :
      (v : DraftVersion) (x : Bytes)
      → add_mtc_proof_sig_alg cb v ≡ ok x
      → (c : Bytes) × (cb.add_asn1 Tag.sequence c ≡ some x)
  unfolding add_mtc_proof_sig_alg
  algorithm-element v x e = let (c, _, a) = around-ok (cb.add_asn1 Tag.sequence) _ x e in (c, a)

  pub name-element :
      (v : DraftVersion) (id x : Bytes)
      → add_x509_name cb v id ≡ ok x
      → (c : Bytes) × (cb.add_asn1 Tag.sequence c ≡ some x)
  unfolding add_x509_name
  name-element v id x e = let (c, _, a) = around-ok (cb.add_asn1 Tag.sequence) _ x e in (c, a)

  pub validity-element :
      (entry : EntryConfig x509) (x : Bytes)
      → add_validity cb x509 entry.base ≡ ok x
      → (c : Bytes) × (cb.add_asn1 Tag.sequence c ≡ some x)
  unfolding add_validity
  validity-element entry x e = let (c, _, a) = around-ok (cb.add_asn1 Tag.sequence) _ x e in (c, a)

  pub subject-element :
      (entry : EntryConfig x509) (x : Bytes)
      → add_subject cb x509 entry.subject ≡ ok x
      → (c : Bytes) × (cb.add_asn1 Tag.sequence c ≡ some x)
  unfolding add_subject
  subject-element entry x e =
      names entry.subject x (found-some BuildError.bad_name (x509.marshal_name entry.subject) x e)

  -- The algorithm of a public key, read where other fields follow the key.
  pub public_key_algorithm-read :
      (spki alg : Bytes)
      → public_key_algorithm cb x509 spki ≡ ok alg
      → (seq : Bytes) × (left : Bytes) × ((more : Bytes)
          → cb.read_asn1 Tag.sequence (spki ++ more) ≡ some (seq, more))
        × (cb.read_asn1_element Tag.sequence seq ≡ some (alg, left))
  unfolding public_key_algorithm
  public_key_algorithm-read spki alg e =
      let bad = BuildError.bad_public_key in
      let ((seq, rest), e1, f1) = >>=-eq-ok (found bad (cb.read_asn1 Tag.sequence spki)) _ e in
      let (u, e2, f2) = >>=-eq-ok (check (length rest == 0) bad) _ f1 in
      let ((elem, left), e3, f3) =
        >>=-eq-ok (found bad (cb.read_asn1_element Tag.sequence seq)) _ f2 in
      let nothing = empty rest ((==_iff (length rest) 0).0 (passed (length rest == 0) bad e2)) in
      let read = found-some bad (cb.read_asn1 Tag.sequence spki) (seq, rest) e1 in
      (
        seq,
        left,
        λ more.
            der.no_lookahead Tag.sequence spki seq rest more read
            ∙ ap (λ r. some (seq, r ++ more)) nothing,
        ok_subst (λ a. cb.read_asn1_element Tag.sequence seq ≡ some (a, left)) f3
            (found-some bad (cb.read_asn1_element Tag.sequence seq) (elem, left) e3),
      )
    where
      empty : (r : Bytes) → length r ≡ 0 → r ≡ []
      empty [] e = refl
      empty (b ∷ bs) e = absurd (omega arith)
