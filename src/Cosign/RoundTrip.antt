-- ===== src/Cosign/RoundTrip.antt =====
-- A cosigner of the configuration of demo/cosign.go signs, and its public side verifies.
use merkle_tree_certs.Prelude.{ℕ, ◌==◌, ==_iff, true, some, ◌≡◌, refl, sym, ap, ◌∙◌, if◌then◌else◌}
use merkle_tree_certs.Prelude.{◌⊎◌, inl, inr}
use merkle_tree_certs.Prelude.{ok, check, passed, found, found-some, >>=-eq-ok, ok_subst}
use merkle_tree_certs.Log.Hash.{Bytes, HashValue, Digest}
use merkle_tree_certs.Config.Version.{DraftVersion}
use merkle_tree_certs.Config.Algorithm.{
  SignatureAlgorithm, p256_with_sha256, p384_with_sha384, ed25519, mldsa44, mldsa65, mldsa87,
}
use merkle_tree_certs.Config.Structs.{CosignerConfig}
use merkle_tree_certs.Cryptobyte.{Cryptobyte}
use merkle_tree_certs.Cosign.{
  KeyLibrary, KeyKind, CosignerPublic, PolicyError, kind_number, key_type, wanted_kind,
  new_cosigner_public,
}
use merkle_tree_certs.Cosign.Message.{CosignError, cosigned_message}
use merkle_tree_certs.Cosign.Sign.{
  SignatureLibrary, SignerOpts, Cosigner, opts_of, verify_with, verify_cosignature,
  new_cosigner_from_config, sign_message_of, sign,
}

-- The type of a key by its kind's number.
abbrev type_number : ℕ → ℕ
type_number n =
    if n == 0
    then 0
    else if n == 1
    then 1
    else if n == 2
    then 1
    else if n == 3
    then 1
    else if n == 7
    then 3
    else 2

key_type-type_number : (k : KeyKind) → key_type k ≡ type_number (kind_number k)
key_type-type_number KeyKind.ed25519_key = refl
key_type-type_number KeyKind.mldsa44_key = refl
key_type-type_number KeyKind.mldsa65_key = refl
key_type-type_number KeyKind.mldsa87_key = refl
key_type-type_number KeyKind.p256_key = refl
key_type-type_number KeyKind.p384_key = refl
key_type-type_number KeyKind.other_ec_key = refl
key_type-type_number KeyKind.other_key = refl

abbrev kind_of_number : ℕ → KeyKind
kind_of_number n =
    if n == 0
    then KeyKind.ed25519_key
    else if n == 1
    then KeyKind.mldsa44_key
    else if n == 2
    then KeyKind.mldsa65_key
    else if n == 3
    then KeyKind.mldsa87_key
    else if n == 4
    then KeyKind.p256_key
    else if n == 5
    then KeyKind.p384_key
    else if n == 6
    then KeyKind.other_ec_key
    else KeyKind.other_key

kind_of_number-kind_number : (k : KeyKind) → kind_of_number (kind_number k) ≡ k
kind_of_number-kind_number KeyKind.ed25519_key = refl
kind_of_number-kind_number KeyKind.mldsa44_key = refl
kind_of_number-kind_number KeyKind.mldsa65_key = refl
kind_of_number-kind_number KeyKind.mldsa87_key = refl
kind_of_number-kind_number KeyKind.p256_key = refl
kind_of_number-kind_number KeyKind.p384_key = refl
kind_of_number-kind_number KeyKind.other_ec_key = refl
kind_of_number-kind_number KeyKind.other_key = refl

kind_number-injective : (j k : KeyKind) → kind_number j ≡ kind_number k → j ≡ k
kind_number-injective j k e =
    sym (kind_of_number-kind_number j) ∙ ap kind_of_number e ∙ kind_of_number-kind_number k

-- The kinds of ML-DSA keys, and of ECDSA keys.
abbrev pub IsMldsa : KeyKind → Type 0
IsMldsa k = (k ≡ KeyKind.mldsa44_key) ⊎ ((k ≡ KeyKind.mldsa65_key) ⊎ (k ≡ KeyKind.mldsa87_key))

abbrev pub IsEcdsa : KeyKind → Type 0
IsEcdsa k = (k ≡ KeyKind.p256_key) ⊎ ((k ≡ KeyKind.p384_key) ⊎ (k ≡ KeyKind.other_ec_key))

-- What the documentation of the signature packages says: a private key has the kind of its public
-- key; Ed25519 and ML-DSA keys sign the message itself, with `crypto.Hash(0)`, and ECDSA keys sign
-- its digest by the hash of the options; and the package of the key verifies what the key signed.
pub record IsSignature (keys : KeyLibrary) (lib : SignatureLibrary keys) : Type 0 where
  pub kinds : (k : lib.PrivateKey) → keys.kind (lib.public k) ≡ lib.private_kind k
  pub ed25519_verifies :
      (k : lib.PrivateKey) (nonce : ℕ) (inp sig : Bytes)
      → lib.private_kind k ≡ KeyKind.ed25519_key
      → lib.sign_message k SignerOpts.no_hash nonce inp ≡ some sig
      → lib.ed25519_verify (lib.public k) inp sig ≡ true
  pub mldsa_verifies :
      (k : lib.PrivateKey) (nonce : ℕ) (inp sig : Bytes)
      → IsMldsa (lib.private_kind k)
      → lib.sign_message k SignerOpts.no_hash nonce inp ≡ some sig
      → lib.mldsa_verify (lib.public k) inp sig ≡ true
  pub ecdsa_sha256_verifies :
      (k : lib.PrivateKey) (nonce : ℕ) (inp sig : Bytes)
      → IsEcdsa (lib.private_kind k)
      → lib.sign_message k SignerOpts.sha256_hash nonce inp ≡ some sig
      → lib.ecdsa_verify_asn1 (lib.public k) (lib.sum256 inp) sig ≡ true
  pub ecdsa_sha384_verifies :
      (k : lib.PrivateKey) (nonce : ℕ) (inp sig : Bytes)
      → IsEcdsa (lib.private_kind k)
      → lib.sign_message k SignerOpts.sha384_hash nonce inp ≡ some sig
      → lib.ecdsa_verify_asn1 (lib.public k) (lib.sum384 inp) sig ≡ true

module _ (keys : KeyLibrary) (lib : SignatureLibrary keys) (laws : IsSignature keys lib)
    (cb : Cryptobyte) (sha256 : Digest) where
  -- The algorithm's verification takes what a key of the algorithm's kind signed with its options.
  verify_with-sign_message :
      (alg : SignatureAlgorithm) (k : lib.PrivateKey) (nonce : ℕ) (inp sig : Bytes)
      → lib.private_kind k ≡ wanted_kind alg
      → lib.sign_message k (opts_of keys lib alg) nonce inp ≡ some sig
      → verify_with keys lib alg (lib.public k) inp sig ≡ true
  verify_with-sign_message p256_with_sha256 k nonce inp sig kind made =
      laws.ecdsa_sha256_verifies k nonce inp sig (inl kind) made
  verify_with-sign_message p384_with_sha384 k nonce inp sig kind made =
      laws.ecdsa_sha384_verifies k nonce inp sig (inr (inl kind)) made
  verify_with-sign_message ed25519 k nonce inp sig kind made =
      laws.ed25519_verifies k nonce inp sig kind made
  verify_with-sign_message mldsa44 k nonce inp sig kind made =
      laws.mldsa_verifies k nonce inp sig (inl kind) made
  verify_with-sign_message mldsa65 k nonce inp sig kind made =
      laws.mldsa_verifies k nonce inp sig (inr (inl kind)) made
  verify_with-sign_message mldsa87 k nonce inp sig kind made =
      laws.mldsa_verifies k nonce inp sig (inr (inr kind)) made

  -- What the constructor has checked of a cosigner.
  record IsCosigner (c : Cosigner keys lib) : Type 0 where
    kind : kind_number (lib.private_kind c.signer) ≡ kind_number (wanted_kind c.signature_algorithm)
    opts : c.signer_opts ≡ opts_of keys lib c.signature_algorithm

  new_cosigner_from_config-IsCosigner :
      (v : DraftVersion) (config : CosignerConfig) (c : Cosigner keys lib)
      → new_cosigner_from_config keys lib sha256 v config ≡ ok c
      → IsCosigner c
  unfolding new_cosigner_from_config
  new_cosigner_from_config-IsCosigner v config c e =
      let alg = config.signature_algorithm in
      let (priv, _, f1) =
        >>=-eq-ok (found PolicyError.malformed_key (lib.parse_pkcs8_private_key config.private_key))
          _ e in
      let fitting = kind_number (lib.private_kind priv) == kind_number (wanted_kind alg) in
      let (u, e2, f2) = >>=-eq-ok (check fitting PolicyError.wrong_key) _ f1 in
      let same =
        (==_iff (kind_number (lib.private_kind priv)) (kind_number (wanted_kind alg))).0
          (passed fitting PolicyError.wrong_key e2) in
      ok_subst IsCosigner f2 (record { kind = same; opts = refl })

  -- A cosigner that `NewCosignerFromConfig` returns has a public side, which `NewCosignerPublic`
  -- returns for its public key, and this verifies every signature of a subtree that the cosigner
  -- makes, where the verification of each signature package takes what its own keys signed.
  pub verify_cosignature-sign :
      (v : DraftVersion) (config : CosignerConfig) (c : Cosigner keys lib) (nonce : ℕ)
      (log sig : Bytes) (start end : ℕ) (hash : HashValue)
      → new_cosigner_from_config keys lib sha256 v config ≡ ok c
      → sign keys lib cb c nonce log start end hash ≡ ok sig
      → (p : CosignerPublic keys) × (new_cosigner_public keys c.version c.id c.signature_algorithm
            (lib.public c.signer)
          ≡ ok p)
        × (verify_cosignature keys lib cb p log start end hash sig ≡ ok tt)
  unfolding sign sign_message_of new_cosigner_public verify_cosignature
  verify_cosignature-sign v config c nonce log sig start end hash made signed =
      let alg = c.signature_algorithm in
      let good = new_cosigner_from_config-IsCosigner v config c made in
      let (inp, e1, f1) =
        >>=-eq-ok (cosigned_message cb c.version c.id log 0 start end hash) _ signed in
      let message =
        found-some CosignError.sign_failed (lib.sign_message c.signer c.signer_opts nonce inp) sig
          f1 in
      let verified =
        verify_with-sign_message alg c.signer nonce inp sig
          (kind_number-injective (lib.private_kind c.signer) (wanted_kind alg) good.kind)
          (ap (λ o. lib.sign_message c.signer o nonce inp) (sym good.opts) ∙ message) in
      let number : kind_number (keys.kind (lib.public c.signer)) ≡ kind_number (wanted_kind alg) =
        ap kind_number (laws.kinds c.signer) ∙ good.kind in
      let fitting : (kind_number (keys.kind (lib.public c.signer)) == kind_number (wanted_kind alg))
          ≡ true =
        (==_iff (kind_number (keys.kind (lib.public c.signer))) (kind_number (wanted_kind alg))).1
          number in
      let typed : (key_type (keys.kind (lib.public c.signer)) == key_type (wanted_kind alg))
          ≡ true =
        (==_iff (key_type (keys.kind (lib.public c.signer))) (key_type (wanted_kind alg))).1 (
          key_type-type_number (keys.kind (lib.public c.signer))
          ∙ ap type_number number
          ∙ sym (key_type-type_number (wanted_kind alg))) in
      let p : CosignerPublic keys = record {
        version = c.version;
        id = c.id;
        signature_algorithm = alg;
        public_key = lib.public c.signer;
      } in
      (p, rw fitting refl, rw (e1, typed, verified) refl)
