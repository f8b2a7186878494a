-- ===== src/Verify/EntryHash.antt =====
-- `VerifyMTCProof` of demo/verify_proof.go hashes what `MarshalTBSCertificateLogEntry` of
-- demo/encode.go puts in the log.
use mathlib.Core.List.{append-nil}
use mathlib.Core.Path.{ap₂}
use merkle_tree_certs.Prelude.{
  ℕ, ◌-◌, ◌^◌, ◌<◌, [], ◌∷◌, ◌++◌, length, ltb, Bool, true, false, if◌then◌else◌, none, some,
  bytes_eq_refl, ◌≡◌, refl, sym, ap, ◌∙◌, arith,
}
use merkle_tree_certs.Prelude.{ok, found-some}
use merkle_tree_certs.Bits.{big_endian}
use merkle_tree_certs.Log.Hash.{Bytes, Digest, hash_leaf}
use merkle_tree_certs.Config.Version.{
  DraftVersion, version_davidben09, version_davidben10, version_plants01, version_plants02,
  version_plants04, version_plants05, version_plants06, version_plants07, version_le,
}
use merkle_tree_certs.Config.Structs.{X509, SubjectConfig, EntryConfig, CertificateConfig}
use merkle_tree_certs.Cryptobyte.{
  Cryptobyte, IsDer, Tag, Build, BuildError, ◌+++◌, around, +++-ok, around-ok,
}
use merkle_tree_certs.Encode.{
  add_x509_v3_version, add_x509_name, add_validity, add_subject, add_mtc_proof_sig_alg,
  add_mtc_entry_extensions,
}
use merkle_tree_certs.Encode.Extensions.{add_extensions}
use merkle_tree_certs.Encode.Entry.{
  add_tbs_certificate, marshal_contents, public_key_algorithm, marshal_tbs_certificate_log_entry,
}
use merkle_tree_certs.Proof.{Certificate}
use merkle_tree_certs.Verify.{hash_u16, hash_tbs, entry_hash}
use merkle_tree_certs.Verify.Elements.{
  version-element, algorithm-element, name-element, validity-element, subject-element,
  public_key_algorithm-read,
}

-- A call has one value.
same_ok : (m : Build) (x y : Bytes) → m ≡ ok x → m ≡ ok y → x ≡ y
same_ok m x y e f = cc

-- The branch of a test that failed.
not_null : (b : Bool) (x y z : Build) → b ≡ false → (if b then x else y) ≡ z → y ≡ z
not_null true x y z e h = cc
not_null false x y z e h = h

abbrev app : Bytes → Bytes → Bytes
app a b = a ++ b

-- A part of a list, and the parts of the rest.
joins : {x x' y y' z : Bytes} → x' ≡ x → y' ≡ y → x ++ y ≡ z → x' ++ y' ≡ z
joins p q j = ap₂ (λ a b. a ++ b) p q ∙ j

hash_u16-big_endian : (n : ℕ) → hash_u16 n ≡ big_endian 2 n
hash_u16-big_endian n = ap₂ (λ a b. a ∷ b ∷ []) (omega arith) (omega arith)

from_plants04 :
    (v : DraftVersion)
    → version_le version_plants04 v ≡ true
    → (version_le version_plants02 v ≡ true) × (version_le version_davidben10 v ≡ true)
from_plants04 version_davidben09 e = cc
from_plants04 version_davidben10 e = cc
from_plants04 version_plants01 e = cc
from_plants04 version_plants02 e = cc
from_plants04 version_plants04 e = (refl, refl)
from_plants04 version_plants05 e = (refl, refl)
from_plants04 version_plants06 e = (refl, refl)
from_plants04 version_plants07 e = (refl, refl)

module _ (cb : Cryptobyte) (der : IsDer cb) (x509 : X509) (sha256 : Digest)
    (names : (s : SubjectConfig) (bs : Bytes)
      → x509.marshal_name s ≡ some bs
      → (c : Bytes) × (cb.add_asn1 Tag.sequence c ≡ some bs)) where
  module _ (v : DraftVersion) (id : Bytes) (entry : EntryConfig x509) (how : CertificateConfig)
      (cert : Certificate) (serial : ℕ) (late : version_le version_plants04 v ≡ true)
      (small : serial < 2 ^ 64) (plain : how.override_tbs_signature_algorithm ≡ [])
      (key : cert.raw_subject_public_key_info ≡ entry.public_key) where
    -- The fields of a TBSCertificate that was built, and of the contents of a log entry.
    record TbsParts (raw : Bytes) : Type 0 where
      inner : Bytes
      vers : Bytes
      alg : Bytes
      issuer : Bytes
      validity : Bytes
      subject : Bytes
      extensions : Bytes
      wrapped : cb.add_asn1 Tag.sequence inner ≡ some raw
      is_vers : add_x509_v3_version cb ≡ ok vers
      is_alg : add_mtc_proof_sig_alg cb v ≡ ok alg
      is_issuer : add_x509_name cb v id ≡ ok issuer
      is_validity : add_validity cb x509 entry.base ≡ ok validity
      is_subject : add_subject cb x509 entry.subject ≡ ok subject
      is_extensions : add_extensions cb x509 entry.base none ≡ ok extensions
      joined :
          vers
            ++ (cb.add_asn1_uint64 serial
                ++ (alg ++ (issuer ++ (validity ++ (subject ++ (entry.public_key ++ extensions))))))
          ≡ inner

    tbs_parts :
        (raw : Bytes) → add_tbs_certificate cb x509 v id serial entry how ≡ ok raw → TbsParts raw
    unfolding add_tbs_certificate
    tbs_parts raw made =
        let (inner, em, at) = around-ok (cb.add_asn1 Tag.sequence) _ raw (rw plain at made) in
        let (xv, y1, ev, e1, j1) = +++-ok (add_x509_v3_version cb) _ inner em in
        let (xs, y2, es, e2, j2) = +++-ok (ok (cb.add_asn1_uint64 serial)) _ y1 e1 in
        let (xa, y3, ea, e3, j3) = +++-ok (add_mtc_proof_sig_alg cb v) _ y2 e2 in
        let (xi, y4, ei, e4, j4) = +++-ok (add_x509_name cb v id) _ y3 e3 in
        let (xw, y5, ew, e5, j5) = +++-ok (add_validity cb x509 entry.base) _ y4 e4 in
        let (xu, y6, eu, e6, j6) = +++-ok (add_subject cb x509 entry.subject) _ y5 e5 in
        let (xk, xx, ek, ex, j7) =
          +++-ok (ok entry.public_key) (add_extensions cb x509 entry.base none) y6 e6 in
        let number : cb.add_asn1_uint64 serial ≡ xs = cc in
        let pk : entry.public_key ≡ xk = cc in
        record {
          inner = inner;
          vers = xv;
          alg = xa;
          issuer = xi;
          validity = xw;
          subject = xu;
          extensions = xx;
          wrapped = at;
          is_vers = ev;
          is_alg = ea;
          is_issuer = ei;
          is_validity = ew;
          is_subject = eu;
          is_extensions = ex;
          joined =
              joins refl
                (joins number
                  (joins refl (joins refl (joins refl (joins refl (joins pk refl j7) j6) j5) j4) j3)
                  j2)
                j1;
        }

    record ContentsParts (c : Bytes) : Type 0 where
      vers : Bytes
      issuer : Bytes
      validity : Bytes
      subject : Bytes
      spki_alg : Bytes
      digest : Bytes
      extensions : Bytes
      is_vers : add_x509_v3_version cb ≡ ok vers
      is_issuer : add_x509_name cb v id ≡ ok issuer
      is_validity : add_validity cb x509 entry.base ≡ ok validity
      is_subject : add_subject cb x509 entry.subject ≡ ok subject
      is_spki_alg : public_key_algorithm cb x509 entry.public_key ≡ ok spki_alg
      is_digest : 4 ∷ 32 ∷ sha256.sum entry.public_key ≡ digest
      is_extensions : add_extensions cb x509 entry.base none ≡ ok extensions
      joined :
          vers ++ (issuer ++ (validity ++ (subject ++ (spki_alg ++ (digest ++ extensions))))) ≡ c

    contents_parts :
        (c : Bytes) → marshal_contents cb x509 sha256 v id entry ≡ ok c → ContentsParts c
    unfolding marshal_contents
    contents_parts c logged =
        let octets = around (cb.add_asn1 Tag.octet_string) (ok (sha256.sum entry.public_key)) in
        let (lv, z1, fv, f1, k1) =
          +++-ok (add_x509_v3_version cb) _ c (rw ((from_plants04 v late).0) at logged) in
        let (li, z2, fi, f2, k2) = +++-ok (add_x509_name cb v id) _ z1 f1 in
        let (lw, z3, fw, f3, k3) = +++-ok (add_validity cb x509 entry.base) _ z2 f2 in
        let (lu, z4, fu, f4, k4) = +++-ok (add_subject cb x509 entry.subject) _ z3 f3 in
        let (la, z5, fa, f5, k5) = +++-ok (public_key_algorithm cb x509 entry.public_key) _ z4 f4 in
        let (lo, lx, fo, fx, k6) = +++-ok octets (add_extensions cb x509 entry.base none) z5 f5 in
        let built =
          found-some BuildError.too_long
            (cb.add_asn1 Tag.octet_string (sha256.sum entry.public_key)) lo fo in
        let bytes = der.octets (sha256.sum entry.public_key) (sha256.length-sum entry.public_key) in
        record {
          vers = lv;
          issuer = li;
          validity = lw;
          subject = lu;
          spki_alg = la;
          digest = lo;
          extensions = lx;
          is_vers = fv;
          is_issuer = fi;
          is_validity = fw;
          is_subject = fu;
          is_spki_alg = fa;
          is_digest = cc;
          is_extensions = fx;
          joined = joins refl (joins refl (joins refl (joins refl (joins refl k6 k5) k4) k3) k2) k1;
        }

    hash_tbs_parts :
        (c : Bytes)
        → TbsParts cert.raw_tbs_certificate
        → ContentsParts c
        → hash_tbs cb sha256 v cert ≡ ok (serial, c)
    unfolding hash_tbs
    hash_tbs_parts c t l =
        let (cv, av) = version-element cb der x509 sha256 names t.vers t.is_vers in
        let (ca, aa) = algorithm-element cb der x509 sha256 names v t.alg t.is_alg in
        let (ci, ai) = name-element cb der x509 sha256 names v id t.issuer t.is_issuer in
        let (cw, aw) = validity-element cb der x509 sha256 names entry t.validity t.is_validity in
        let (cu, au) = subject-element cb der x509 sha256 names entry t.subject t.is_subject in
        let (seq, left, rk, re) =
          public_key_algorithm-read cb der x509 sha256 names entry.public_key l.spki_alg
            l.is_spki_alg in
        let s5 : Bytes = entry.public_key ++ t.extensions in
        let s4 : Bytes = t.subject ++ s5 in
        let s3 : Bytes = t.validity ++ s4 in
        let s2 : Bytes = t.issuer ++ s3 in
        let s1 : Bytes = t.alg ++ s2 in
        let s0 : Bytes = cb.add_asn1_uint64 serial ++ s1 in
        let read : cb.read_asn1 Tag.sequence cert.raw_tbs_certificate ≡ some (t.vers ++ s0, []) =
          ap (cb.read_asn1 Tag.sequence) (sym (append-nil cert.raw_tbs_certificate))
          ∙ der.contents Tag.sequence t.inner cert.raw_tbs_certificate [] t.wrapped
          ∙ ap (λ i. some (i, [])) (sym t.joined) in
        let p = der.peek (Tag.constructed 0) cv t.vers s0 av in
        let rv = der.element (Tag.constructed 0) cv t.vers s0 av in
        let rn = der.uint64 serial s1 small in
        let ra = der.element Tag.sequence ca t.alg s2 aa in
        let ri = der.element Tag.sequence ci t.issuer s3 ai in
        let rw' = der.element Tag.sequence cw t.validity s4 aw in
        let ru = der.element Tag.sequence cu t.subject s5 au in
        let rp = rk t.extensions in
        let same = bytes_eq_refl t.alg in
        let whole : t.vers
              ++ (t.issuer
                  ++ (t.validity
                      ++ (t.subject
                          ++ (l.spki_alg
                              ++ ((4 ∷ 32 ∷ [])
                                  ++ (sha256.sum cert.raw_subject_public_key_info
                                      ++ t.extensions))))))
            ≡ c =
          ap₂ app (same_ok (add_x509_v3_version cb) t.vers l.vers t.is_vers l.is_vers) (
            ap₂ app (same_ok (add_x509_name cb v id) t.issuer l.issuer t.is_issuer l.is_issuer) (
              ap₂ app
                (same_ok (add_validity cb x509 entry.base) t.validity l.validity t.is_validity
                  l.is_validity)
                (ap₂ app
                  (same_ok (add_subject cb x509 entry.subject) t.subject l.subject t.is_subject
                    l.is_subject)
                  (ap (app l.spki_alg) (
                    ap₂ app (ap (λ k. 4 ∷ 32 ∷ sha256.sum k) key ∙ l.is_digest) (
                      same_ok (add_extensions cb x509 entry.base none) t.extensions l.extensions
                        t.is_extensions l.is_extensions))))))
          ∙ l.joined in
        rw (read, p, rv, rn, ra, t.is_alg, same, ri, rw', ru, rp, re)
          (ap (λ k. ok (serial, k)) whole)

    -- From the TBSCertificate that was made, `VerifyMTCProof` computes the contents that were logged.
    hash_tbs-add_tbs_certificate :
        (c : Bytes)
        → add_tbs_certificate cb x509 v id serial entry how ≡ ok cert.raw_tbs_certificate
        → marshal_contents cb x509 sha256 v id entry ≡ ok c
        → hash_tbs cb sha256 v cert ≡ ok (serial, c)
    hash_tbs-add_tbs_certificate c made logged =
        hash_tbs_parts c (tbs_parts cert.raw_tbs_certificate made) (contents_parts c logged)

    -- From draft plants-04 on, for an entry that is not a null entry, a serial number of 64 bits and
    -- no override of the algorithm in the TBSCertificate: where the log entry and the TBSCertificate
    -- were both built, the hash that `VerifyMTCProof` computes from a certificate with this
    -- TBSCertificate, this public key and the entry's extensions is the leaf hash of the log entry.
    pub entry_hash-marshal_tbs_certificate_log_entry :
        (logged : Bytes)
        → entry.null ≡ false
        → add_tbs_certificate cb x509 v id serial entry how ≡ ok cert.raw_tbs_certificate
        → marshal_tbs_certificate_log_entry cb x509 sha256 v id entry ≡ ok logged
        → entry_hash cb sha256 v cert entry.mtc_entry_extensions
          ≡ ok (serial, hash_leaf sha256 logged)
    unfolding marshal_tbs_certificate_log_entry add_mtc_entry_extensions entry_hash hash_leaf
    entry_hash-marshal_tbs_certificate_log_entry logged full made marshalled =
        let exts = entry.mtc_entry_extensions in
        let contents = marshal_contents cb x509 sha256 v id entry in
        let (x, y, ex, ey, j) =
          +++-ok (around cb.add_uint16_prefixed (ok exts)) (ok (cb.add_uint16 1) +++ contents)
            logged
            (rw (late, (from_plants04 v late).1) at
              (not_null entry.null _ _ (ok logged) full marshalled)) in
        let (n, c, en, ec, k) = +++-ok (ok (cb.add_uint16 1)) contents y ey in
        let (short, ex') =
          der.prefix exts x (found-some BuildError.too_long (cb.add_uint16_prefixed exts) x ex) in
        let fits : ltb (2 ^ 16 - 1) (length exts) ≡ false = ground arith in
        let tag : hash_u16 1 ≡ n =
          hash_u16-big_endian 1 ∙ sym (der.number 1 (omega arith)) ∙ value n en in
        let front : hash_u16 (length exts) ++ exts ≡ x =
          ap (λ h. h ++ exts) (hash_u16-big_endian (length exts)) ∙ sym ex' in
        let bytes : (hash_u16 (length exts) ++ exts) ++ (hash_u16 1 ++ c) ≡ logged =
          ap₂ app front (ap (λ h. h ++ c) tag ∙ k) ∙ j in
        rw (fits, hash_tbs-add_tbs_certificate c made ec)
          (ap (λ b. ok (serial, sha256.sum (0 ∷ b))) bytes)
      where
        value : (n : Bytes) → ◌≡◌ {A = Build} (ok (cb.add_uint16 1)) (ok n) → cb.add_uint16 1 ≡ n
        value n e = cc
