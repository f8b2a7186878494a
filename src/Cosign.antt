-- ===== src/Cosign.antt =====
-- `CosignerPublic` and `NewCosignerPublic` of demo/cosign.go. Keys are values of Go's crypto
-- packages: the parameter tells their kind apart, as the type assertions do.
pub mod Message
pub mod Sign
pub mod Injective
pub mod RoundTrip
use merkle_tree_certs.Prelude.{ℕ, ◌==◌, check, ◌>>◌, Option, Outcome, ok}
use merkle_tree_certs.Log.Hash.{Bytes}
use merkle_tree_certs.Config.Version.{DraftVersion}
use merkle_tree_certs.Config.Algorithm.{
  SignatureAlgorithm, p256_with_sha256, p384_with_sha384, ed25519, mldsa44, mldsa65, mldsa87,
}

-- The kinds of key that the code tells apart, with the parameters of a key of ML-DSA and the curve
-- of a key of ECDSA.
pub data KeyKind : Type 0 where
  ed25519_key mldsa44_key mldsa65_key mldsa87_key p256_key p384_key other_ec_key other_key : KeyKind

-- `x509.ParsePKIXPublicKey`, and the type assertions on what it returns.
pub record KeyLibrary : Type 1 where
  pub PublicKey : Type 0
  pub kind : PublicKey → KeyKind
  pub parse_pkix_public_key : Bytes → Option PublicKey

pub data PolicyError : Type 0 where
  already_defined malformed_key wrong_key unknown_member unknown_name unknown_ca : PolicyError
  reversed_range invalid_subtree : PolicyError

abbrev pub kind_number : KeyKind → ℕ
kind_number KeyKind.ed25519_key = 0
kind_number KeyKind.mldsa44_key = 1
kind_number KeyKind.mldsa65_key = 2
kind_number KeyKind.mldsa87_key = 3
kind_number KeyKind.p256_key = 4
kind_number KeyKind.p384_key = 5
kind_number KeyKind.other_ec_key = 6
kind_number KeyKind.other_key = 7

-- The Go types of the kinds: `ed25519.PublicKey`, `*mldsa.PublicKey`, `*ecdsa.PublicKey`, others.
abbrev pub key_type : KeyKind → ℕ
key_type KeyKind.ed25519_key = 0
key_type KeyKind.mldsa44_key = 1
key_type KeyKind.mldsa65_key = 1
key_type KeyKind.mldsa87_key = 1
key_type KeyKind.p256_key = 2
key_type KeyKind.p384_key = 2
key_type KeyKind.other_ec_key = 2
key_type KeyKind.other_key = 3

-- The kind that the switch wants for an algorithm.
abbrev pub wanted_kind : SignatureAlgorithm → KeyKind
wanted_kind p256_with_sha256 = KeyKind.p256_key
wanted_kind p384_with_sha384 = KeyKind.p384_key
wanted_kind ed25519 = KeyKind.ed25519_key
wanted_kind mldsa44 = KeyKind.mldsa44_key
wanted_kind mldsa65 = KeyKind.mldsa65_key
wanted_kind mldsa87 = KeyKind.mldsa87_key

module _ (keys : KeyLibrary) where
  pub record CosignerPublic : Type 0 where
    pub version : DraftVersion
    pub id : Bytes
    pub signature_algorithm : SignatureAlgorithm
    pub public_key : keys.PublicKey

  unfoldable pub new_cosigner_public :
      DraftVersion
      → Bytes
      → SignatureAlgorithm
      → keys.PublicKey
      → Outcome PolicyError CosignerPublic
  new_cosigner_public vers id sig_alg pubkey = do
    check (kind_number (keys.kind pubkey) == kind_number (wanted_kind sig_alg))
        PolicyError.wrong_key
    ok (record { version = vers; id = id; signature_algorithm = sig_alg; public_key = pubkey })
