-- ===== src/Lib.antt =====
-- The demo tool for Merkle Tree Certificates (demo/*.go of the repository): the parts that decide
-- what a proof or a policy means.
--
-- The issuance log is a Merkle tree over log entries. A certificate carries an inclusion proof of
-- its entry in a subtree and cosignatures on that subtree; a relying party evaluates the proof to a
-- subtree hash, and its policy says which cosigners are enough. Logs and cosigners are named by
-- trust anchor IDs.
--
-- Prelude: shared names, the outcomes of a Go call (a value, an error, a panic), Boolean tests and
--   lists measured by the native numbers.
-- Bits: `bits.Len64`, `bits.TrailingZeros64`, masks, powers of two.
-- Log: demo/log.go. Log/Hash has the hash functions, Log/Tree `MerkleTree` and
--   `StaticMerkleTree`, Log/Subtree `IsValidSubtree` and `SubtreeHash`, Log/Inclusion
--   `SubtreeInclusionProof` and `EvaluateSubtreeInclusionProof`, Log/Consistency
--   `SubtreeConsistencyProof` and `subtreeSubproof`, Log/Interval `SubtreesForInterval`.
--   The specifications are relations: the Merkle Tree Hash of RFC 9162 (Log/Mth), the subtrees
--   of the draft (Log/Subtree/Valid) and SUBTREE_SUBPROOF (Log/Consistency/Subproof). The functions
--   on subtrees use a tree through `MerkleTree`, and `IsTreeOf` states what it promises them.
-- Config: demo/config.go. Config/Base128 has `parseBase128` and `appendBase128`, Config/AnchorId the
--   trust anchor IDs, their strings and patterns, and `LogID` of demo/encode.go.
--   Config/Structs has the configuration, Config/FromText the functions that read text, with
--   `parseSerial` of demo/verify.go, below it the decimals and IDs they read back, and Config/Names
--   the names of versions and algorithms.
-- Cryptobyte: the interface of golang.org/x/crypto/cryptobyte, a parameter, with its documented laws.
-- Encode: demo/encode.go. Encode.antt, Encode/Extensions and Encode/Entry have the fields of
--   certificates and the log entries, Encode/Certificate `CreateCertificate` and
--   `CreateCACertificate`, Encode/Properties the certificate properties, Encode/Order and
--   Encode/Sorted the order of cosignatures.
-- Cosign: demo/cosign.go. Cosign.antt has `NewCosignerPublic`, Cosign/Message the signed message,
--   Cosign/Sign cosigners, signing and `Verify`, Cosign/Injective what a message determines, and
--   Cosign/RoundTrip signing and then verifying.
-- Proof: `parseMTCProof` of demo/verify_proof.go. Proof/Ordered and Proof/Returns are about every
--   input, Proof/RoundTrip and Proof/Issued about proofs that demo/encode.go made.
-- Verify: `VerifyMTCProof` of demo/verify_proof.go. Verify/Signed and Verify/Sound say what it has
--   checked, Verify/EntryHash, over Verify/Elements, compares what it hashes with what
--   demo/encode.go logs.
-- Policy: demo/policy.go. Policy.antt has the operations, Policy/Evaluate `EvaluateGroups`,
--   Policy/Computed, Policy/Fixpoint and Policy/Monotone its results, Policy/Invariant what the
--   operations preserve, Policy/Build sequences of them, as demo/verify.go makes them, and
--   Policy/AddCa `AddCA`. Policy/File is `parsePolicyFile` of demo/verify.go, with Policy/File/Numbers
--   and Policy/File/Commands on what its lines write, and Policy/File/InRange on the bounds of what
--   it accepts.
-- Generate: decisions of demo/generate.go, the subtree and the properties of a certificate.
-- Runs: tests at fixed inputs, and the theorems at concrete inputs.
--
-- A function of Go that returns an error or may panic is a function into `Outcome`. A uint64 is a
-- native number; where a subtraction, a shift or a complement may wrap, the remainder by 2 ^ 64 is
-- written out. A Go map is an association list, and a byte slice or a string a list of numbers.
--
-- Loops run on fuel, and `stuck` is what a loop without fuel comes to. Indices of 64 binary digits
-- halve in each round, so 65 rounds are enough for `subtree_loop`, `inclusion_loop` and
-- `subtree_subproof`, and 64 for `skip_zeros`; `evaluate_loop` and the loops on IDs take a byte or
-- more in each round, as do the loops of `parseMTCProof`, and `levels_from` halves its level.
--
-- Parameters: the digest of crypto/sha256 (its length is all that is relied on; a collision is
-- stated as an alternative in a result, never excluded), the byte builder and readers of cryptobyte,
-- the parser, the kinds of keys and the names of crypto/x509, the decoder of encoding/base64, and
-- the signature schemes, whose randomness is a number.
--
-- Not modelled: the files and the printing (the rest of demo/generate.go and demo/verify.go,
-- demo/print_proof.go, demo/main.go), the calls of encoding/json and encoding/pem, and
-- estimate_tile_size.go, which measures compression.
pub mod Prelude
pub mod Bits
pub mod Log
pub mod Config
pub mod Cryptobyte
pub mod Encode
pub mod Cosign
pub mod Proof
pub mod Policy
pub mod Verify
pub mod Generate
mod Runs
