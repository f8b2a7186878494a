-- ===== src/Policy/File/Commands.antt =====
-- The commands of a policy file of demo/verify.go, as one writes them.
use merkle_tree_certs.Prelude.{ℕ, ℤ, ◌^◌, ◌<◌, ◌≡◌, List, [], ◌∷◌, length, Option, some}
use merkle_tree_certs.Prelude.{codes}
use merkle_tree_certs.Log.Hash.{Bytes, hash_size}
use merkle_tree_certs.Config.Algorithm.{SignatureAlgorithm}
use merkle_tree_certs.Config.AnchorId.{id_string}
use merkle_tree_certs.Config.FromText.AnchorIds.{IsId}
use merkle_tree_certs.Config.Names.{algorithm_string}
use merkle_tree_certs.Policy.{Policy}
use merkle_tree_certs.Policy.Build.{Operation}
use merkle_tree_certs.Policy.File.{without_comment, fields}
use merkle_tree_certs.Policy.File.Numbers.{decimal, Serial, Quorum}

-- The fields of a command and what it asks for.
pub data Command (Certificate : Type 0) (base64 : Bytes → Option Bytes)
    : Bytes → List Bytes → Operation Certificate → Type 0 where
  a_cosigner :
      {id spki text : Bytes} (alg : SignatureAlgorithm)
      → IsId id
      → base64 text ≡ some spki
      → Command Certificate base64
          (codes "cosigner")
          (id_string id ∷ algorithm_string alg ∷ text ∷ [])
          (Operation.cosigner id alg spki)
  a_group :
      {name num m : Bytes} {ms : List Bytes} {n : ℕ}
      → Quorum num (length (m ∷ ms)) n
      → Command Certificate base64
          (codes "group")
          (name ∷ num ∷ m ∷ ms)
          (Operation.group name (ℤ.pos n) (m ∷ ms))
  for_all_cas :
      {name : Bytes}
      → Command Certificate base64
          (codes "require-cosigners")
          (codes "all" ∷ name ∷ [])
          (Operation.require_for_all name)
  for_one_ca :
      {id name : Bytes}
      → IsId id
      → Command Certificate base64
          (codes "require-cosigners")
          (id_string id ∷ name ∷ [])
          (Operation.require_for_ca id name)
  a_revocation :
      {id lo hi : Bytes} {min max : ℕ}
      → IsId id
      → Serial lo min
      → Serial hi max
      → Command Certificate base64
          (codes "revoke-range")
          (id_string id ∷ lo ∷ hi ∷ [])
          (Operation.revoke id min max)
  a_trusted_subtree :
      {id text hash : Bytes} {log start end : ℕ}
      → IsId id
      → log < 2 ^ 16
      → start < 2 ^ 48
      → end < 2 ^ 48
      → base64 text ≡ some hash
      → length hash ≡ hash_size
      → Command Certificate base64
          (codes "trusted-subtree")
          (id_string id ∷ decimal log ∷ decimal start ∷ decimal end ∷ text ∷ [])
          (Operation.trust id log start end hash)

-- The lines of a file and the operations they ask for, where a line without a field asks for none.
pub data Lines (Certificate : Type 0) (base64 : Bytes → Option Bytes)
    : List Bytes → List (Operation Certificate) → Type 0 where
  no_lines : Lines Certificate base64 [] []
  blank :
      {line : Bytes} {lines : List Bytes} {ops : List (Operation Certificate)}
      → fields (without_comment line) ≡ []
      → Lines Certificate base64 lines ops
      → Lines Certificate base64 (line ∷ lines) ops
  command :
      {line cmd : Bytes} {args lines : List Bytes} {op : Operation Certificate}
      {ops : List (Operation Certificate)}
      → fields (without_comment line) ≡ cmd ∷ args
      → Command Certificate base64 cmd args op
      → Lines Certificate base64 lines ops
      → Lines Certificate base64 (line ∷ lines) (op ∷ ops)
