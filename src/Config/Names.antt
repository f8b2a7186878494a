-- ===== src/Config/Names.antt =====
-- The names of draft versions and of signature algorithms, in demo/config.go.
use merkle_tree_certs.Prelude.{if◌then◌else◌, Option, none, some, bytes_eq, codes}
use merkle_tree_certs.Log.Hash.{Bytes}
use merkle_tree_certs.Config.Version.{
  DraftVersion, version_davidben09, version_davidben10, version_plants01, version_plants02,
  version_plants04, version_plants05, version_plants06, version_plants07,
}
use merkle_tree_certs.Config.Algorithm.{
  SignatureAlgorithm, p256_with_sha256, p384_with_sha384, ed25519, mldsa44, mldsa65, mldsa87,
}

-- `DraftVersion.String` and `DraftVersionFromString`
abbrev pub version_string : DraftVersion → Bytes
version_string version_davidben09 = codes "davidben-09"
version_string version_davidben10 = codes "davidben-10"
version_string version_plants01 = codes "plants-01"
version_string version_plants02 = codes "plants-02"
version_string version_plants04 = codes "plants-04"
version_string version_plants05 = codes "plants-05"
version_string version_plants06 = codes "plants-06"
version_string version_plants07 = codes "plants-07"

unfoldable pub version_from_string : Bytes → Option DraftVersion
version_from_string s =
    if bytes_eq s (codes "davidben-09")
    then some version_davidben09
    else if bytes_eq s (codes "davidben-10")
    then some version_davidben10
    else if bytes_eq s (codes "plants-01")
    then some version_plants01
    else if bytes_eq s (codes "plants-02")
    then some version_plants02
    else if bytes_eq s (codes "plants-04")
    then some version_plants04
    else if bytes_eq s (codes "plants-05")
    then some version_plants05
    else if bytes_eq s (codes "plants-06")
    then some version_plants06
    else if bytes_eq s (codes "plants-07")
    then some version_plants07
    else none

-- `SignatureAlgorithm.String` and `SignatureAlgorithmFromString`
abbrev pub algorithm_string : SignatureAlgorithm → Bytes
algorithm_string p256_with_sha256 = codes "ecdsa_p256_sha256"
algorithm_string p384_with_sha384 = codes "ecdsa_p384_sha384"
algorithm_string ed25519 = codes "ed25519"
algorithm_string mldsa44 = codes "mldsa44"
algorithm_string mldsa65 = codes "mldsa65"
algorithm_string mldsa87 = codes "mldsa87"

unfoldable pub algorithm_from_string : Bytes → Option SignatureAlgorithm
algorithm_from_string s =
    if bytes_eq s (codes "ecdsa_p256_sha256")
    then some p256_with_sha256
    else if bytes_eq s (codes "ecdsa_p384_sha384")
    then some p384_with_sha384
    else if bytes_eq s (codes "ed25519")
    then some ed25519
    else if bytes_eq s (codes "mldsa44")
    then some mldsa44
    else if bytes_eq s (codes "mldsa65")
    then some mldsa65
    else if bytes_eq s (codes "mldsa87")
    then some mldsa87
    else none
