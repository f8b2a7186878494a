-- ===== src/Config/Algorithm.antt =====
-- `SignatureAlgorithm` of demo/config.go.
pub data SignatureAlgorithm : Type 0 where
  p256_with_sha256 p384_with_sha384 ed25519 mldsa44 mldsa65 mldsa87 : SignatureAlgorithm
