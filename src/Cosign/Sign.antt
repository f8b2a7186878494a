-- ===== src/Cosign/Sign.antt =====
-- `Cosigner` and `CosignerPublic.Verify` of demo/cosign.go. The signature schemes are Go's.
use merkle_tree_certs.Prelude.{ℕ, ◌∷◌, ◌++◌, take, Bool, ◌==◌, if◌then◌else◌, codes, Option}
use merkle_tree_certs.Prelude.{Outcome, ok, panic, check, found, ◌>>=◌, ◌>>◌}
use merkle_tree_certs.Bits.{big_endian}
use merkle_tree_certs.Log.Hash.{Bytes, HashValue, Digest}
use merkle_tree_certs.Config.Version.{DraftVersion, version_plants04, version_le, version_lt}
use merkle_tree_certs.Config.Algorithm.{
  SignatureAlgorithm, p256_with_sha256, p384_with_sha384, ed25519, mldsa44, mldsa65, mldsa87,
}
use merkle_tree_certs.Config.Structs.{CosignerConfig}
use merkle_tree_certs.Cryptobyte.{Cryptobyte}
use merkle_tree_certs.Cosign.{
  KeyLibrary, KeyKind, CosignerPublic, PolicyError, kind_number, key_type, wanted_kind,
}
use merkle_tree_certs.Cosign.Message.{CosignError, tlog_origin, cosigned_message}

-- `crypto.Hash`, for the ECDSA algorithms, and `crypto.Hash(0)`.
pub data SignerOpts : Type 0 where
  no_hash sha256_hash sha384_hash : SignerOpts

-- `ed25519.Verify`, `mldsa.Verify` and `ecdsa.VerifyASN1`, private keys, and `crypto.SignMessage`,
-- which is randomized: the number stands for what it reads from `rand.Reader`.
pub record SignatureLibrary (keys : KeyLibrary) : Type 1 where
  pub ed25519_verify : keys.PublicKey → Bytes → Bytes → Bool
  pub mldsa_verify : keys.PublicKey → Bytes → Bytes → Bool
  pub ecdsa_verify_asn1 : keys.PublicKey → Bytes → Bytes → Bool
  pub sum256 : Bytes → Bytes
  pub sum384 : Bytes → Bytes
  pub PrivateKey : Type 0
  pub parse_pkcs8_private_key : Bytes → Option PrivateKey
  pub private_kind : PrivateKey → KeyKind
  pub public : PrivateKey → keys.PublicKey
  pub public_bytes : keys.PublicKey → Bytes
  pub marshal_pkix_public_key : keys.PublicKey → Option Bytes
  pub sign_message : PrivateKey → SignerOpts → ℕ → Bytes → Option Bytes

module _ (keys : KeyLibrary) (lib : SignatureLibrary keys) where
  -- The library call of an algorithm on a message.
  abbrev pub verify_with : SignatureAlgorithm → keys.PublicKey → Bytes → Bytes → Bool
  verify_with p256_with_sha256 key inp sig = lib.ecdsa_verify_asn1 key (lib.sum256 inp) sig
  verify_with p384_with_sha384 key inp sig = lib.ecdsa_verify_asn1 key (lib.sum384 inp) sig
  verify_with ed25519 key inp sig = lib.ed25519_verify key inp sig
  verify_with mldsa44 key inp sig = lib.mldsa_verify key inp sig
  verify_with mldsa65 key inp sig = lib.mldsa_verify key inp sig
  verify_with mldsa87 key inp sig = lib.mldsa_verify key inp sig

  -- A type assertion panics on a key of another type. It does not look at parameters or curves.
  abbrev pub assert_key : SignatureAlgorithm → keys.PublicKey → Outcome CosignError (Unit {0})
  assert_key alg key =
      if key_type (keys.kind key) == key_type (wanted_kind alg) then ok tt else panic

  unfoldable pub verify_cosignature :
      Cryptobyte
      → CosignerPublic keys
      → Bytes
      → ℕ
      → ℕ
      → HashValue
      → Bytes
      → Outcome CosignError (Unit {0})
  verify_cosignature cb c log_id start end hash sig = do
    inp ← cosigned_message cb c.version c.id log_id 0 start end hash
    assert_key c.signature_algorithm c.public_key
    check (verify_with c.signature_algorithm c.public_key inp sig) CosignError.bad_signature

  pub record Cosigner : Type 0 where
    pub version : DraftVersion
    pub id : Bytes
    pub key_id : Bytes
    pub signature_algorithm : SignatureAlgorithm
    pub signer : lib.PrivateKey
    pub signer_opts : SignerOpts

  abbrev pub opts_of : SignatureAlgorithm → SignerOpts
  opts_of p256_with_sha256 = sha256_hash
  opts_of p384_with_sha384 = sha384_hash
  opts_of ed25519 = no_hash
  opts_of mldsa44 = no_hash
  opts_of mldsa65 = no_hash
  opts_of mldsa87 = no_hash

  -- The digest's input after the origin: a scheme of tlog-cosignature, or a placeholder.
  abbrev pub key_id_tail : DraftVersion → SignatureAlgorithm → keys.PublicKey → Bytes
  key_id_tail version mldsa44 key =
      if version_le version_plants04 version
      then 10 ∷ 6 ∷ lib.public_bytes key
      else 10 ∷ 255 ∷ codes "mtc-checkpoint/v1"
  key_id_tail version p256_with_sha256 key = 10 ∷ 255 ∷ codes "mtc-checkpoint/v1"
  key_id_tail version p384_with_sha384 key = 10 ∷ 255 ∷ codes "mtc-checkpoint/v1"
  key_id_tail version ed25519 key = 10 ∷ 255 ∷ codes "mtc-checkpoint/v1"
  key_id_tail version mldsa65 key = 10 ∷ 255 ∷ codes "mtc-checkpoint/v1"
  key_id_tail version mldsa87 key = 10 ∷ 255 ∷ codes "mtc-checkpoint/v1"

  unfoldable pub new_cosigner_from_config :
      Digest → DraftVersion → CosignerConfig → Outcome PolicyError Cosigner
  new_cosigner_from_config sha256 version config = do
    priv ← found PolicyError.malformed_key (lib.parse_pkcs8_private_key config.private_key)
    check
        (kind_number (lib.private_kind priv)
          == kind_number (wanted_kind config.signature_algorithm))
        PolicyError.wrong_key
    let digest =
        (sha256.sum (
          tlog_origin config.cosigner_id
          ++ key_id_tail version config.signature_algorithm (lib.public priv)))
    ok (record {
      version = version;
      id = config.cosigner_id;
      key_id = take 4 digest;
      signature_algorithm = config.signature_algorithm;
      signer = priv;
      signer_opts = opts_of config.signature_algorithm;
    })

  unfoldable pub sign_message_of :
      Cryptobyte → Cosigner → ℕ → Bytes → ℕ → ℕ → ℕ → HashValue → Outcome CosignError Bytes
  sign_message_of cb c nonce log_id timestamp start end hash = do
    inp ← cosigned_message cb c.version c.id log_id timestamp start end hash
    found CosignError.sign_failed (lib.sign_message c.signer c.signer_opts nonce inp)

  -- `Sign`
  unfoldable pub sign :
      Cryptobyte → Cosigner → ℕ → Bytes → ℕ → ℕ → HashValue → Outcome CosignError Bytes
  sign cb c nonce log_id start end hash = sign_message_of cb c nonce log_id 0 start end hash

  unfoldable pub sign_checkpoint :
      Cryptobyte → Cosigner → ℕ → Bytes → ℕ → ℕ → HashValue → Outcome CosignError Bytes
  sign_checkpoint cb c nonce log_id size timestamp hash =
      let early = sign_message_of cb c nonce log_id 0 0 size hash in
      let timed = (do
        sig ← sign_message_of cb c nonce log_id timestamp 0 size hash
        ok (big_endian 8 timestamp ++ sig)) in
      if version_lt c.version version_plants04 then early else timed
