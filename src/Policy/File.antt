-- ===== src/Policy/File.antt =====
-- `parsePolicyFile` of demo/verify.go: a policy file of ASCII text, line by line. The decoder of
-- encoding/base64 is a parameter.
pub mod Numbers
pub mod Commands
pub mod InRange
use merkle_tree_certs.Prelude.{
  ℕ, ℤ, List, [], ◌∷◌, length, ltb, ◌==◌, Bool, not, ◌&&◌, ◌||◌, leb, if◌then◌else◌, Option,
  bytes_eq, codes, ◌≡◌,
}
use merkle_tree_certs.Prelude.{Outcome, ok, err, lift_err, found, check, ◌>>=◌, ◌>>◌}
use merkle_tree_certs.Log.Hash.{Bytes, hash_size}
use merkle_tree_certs.Config.FromText.{TextError, atoi, parse_uint, id_from_string, parse_serial}
use merkle_tree_certs.Config.Names.{algorithm_from_string}
use merkle_tree_certs.Cosign.{KeyLibrary, PolicyError}
use merkle_tree_certs.Policy.{Policy}
use merkle_tree_certs.Policy.Build.{Operation, apply}

pub data FileError : Type 0 where
  wrong_fields unknown_command unknown_algorithm bad_base64 bad_group_number bad_hash : FileError
  bad_text : TextError → FileError
  rejected : PolicyError → FileError

-- The line up to a `#`, and its `strings.Fields`.
abbrev pub without_comment : Bytes → Bytes
without_comment [] = []
without_comment (b ∷ bs) = let rest = without_comment bs in if b == 35 then [] else b ∷ rest

abbrev is_space : ℕ → Bool
is_space b = b == 32 || leb 9 b && leb b 13

abbrev add_field : Bytes → List Bytes → List Bytes
add_field [] fs = fs
add_field (b ∷ bs) fs = (b ∷ bs) ∷ fs

-- The first field, which may be empty, and the other fields.
abbrev pub fields_from : Bytes → Bytes × List Bytes
fields_from [] = ([], [])
fields_from (b ∷ bs) =
    let rest = fields_from bs in
    if is_space b then ([], add_field rest.0 rest.1) else (b ∷ rest.0, rest.1)

abbrev pub fields : Bytes → List Bytes
fields line = add_field (fields_from line).0 (fields_from line).1

abbrev pub text {ℓ} : {A : Type ℓ} → Outcome TextError A → Outcome FileError A
text m = lift_err FileError.bad_text m

-- `any`, `all`, or a number from 1 to the number of members.
abbrev pub in_range : ℕ → ℤ → Outcome FileError ℤ
in_range size (ℤ.negsuc n) = err FileError.bad_group_number
in_range size (ℤ.pos n) = do
  check (not (n == 0 || ltb size n)) FileError.bad_group_number
  ok (ℤ.pos n)

unfoldable pub group_number : Bytes → ℕ → Outcome FileError ℤ
group_number num size =
    if bytes_eq num (codes "any")
    then ok (ℤ.pos 1)
    else if bytes_eq num (codes "all")
    then ok (ℤ.pos size)
    else (do n ← text (atoi num); in_range size n)

module _ (Certificate : Type 0) (base64 : Bytes → Option Bytes) where
  abbrev pub cosigner_command : List Bytes → Outcome FileError (Operation Certificate)
  cosigner_command (a ∷ b ∷ c ∷ []) = do
    id ← text (id_from_string a)
    alg ← found FileError.unknown_algorithm (algorithm_from_string b)
    spki ← found FileError.bad_base64 (base64 c)
    ok (Operation.cosigner id alg spki)
  cosigner_command args = err FileError.wrong_fields

  abbrev pub group_command : List Bytes → Outcome FileError (Operation Certificate)
  group_command (name ∷ num ∷ m ∷ members) = do
    n ← group_number num (length (m ∷ members))
    ok (Operation.group name n (m ∷ members))
  group_command args = err FileError.wrong_fields

  abbrev pub require_cosigners_command : List Bytes → Outcome FileError (Operation Certificate)
  require_cosigners_command (ca ∷ req ∷ []) =
      if bytes_eq ca (codes "all")
      then ok (Operation.require_for_all req)
      else (do id ← text (id_from_string ca); ok (Operation.require_for_ca id req))
  require_cosigners_command args = err FileError.wrong_fields

  abbrev pub revoke_range_command : List Bytes → Outcome FileError (Operation Certificate)
  revoke_range_command (ca ∷ lo ∷ hi ∷ []) = do
    id ← text (id_from_string ca)
    min ← text (parse_serial lo)
    max ← text (parse_serial hi)
    ok (Operation.revoke id min max)
  revoke_range_command args = err FileError.wrong_fields

  abbrev pub trusted_subtree_command : List Bytes → Outcome FileError (Operation Certificate)
  trusted_subtree_command (ca ∷ log ∷ a ∷ b ∷ h ∷ []) = do
    id ← text (id_from_string ca)
    num ← text (parse_uint 16 log)
    start ← text (parse_uint 48 a)
    end ← text (parse_uint 48 b)
    hash ← found FileError.bad_hash (base64 h)
    check (length hash == hash_size) FileError.bad_hash
    ok (Operation.trust id num start end hash)
  trusted_subtree_command args = err FileError.wrong_fields

  unfoldable pub parse_command : Bytes → List Bytes → Outcome FileError (Operation Certificate)
  parse_command cmd args =
      if bytes_eq cmd (codes "cosigner")
      then cosigner_command args
      else if bytes_eq cmd (codes "group")
      then group_command args
      else if bytes_eq cmd (codes "require-cosigners")
      then require_cosigners_command args
      else if bytes_eq cmd (codes "revoke-range")
      then revoke_range_command args
      else if bytes_eq cmd (codes "trusted-subtree")
      then trusted_subtree_command args
      else err FileError.unknown_command

  module _ (keys : KeyLibrary) where
    -- A line without a field changes nothing.
    abbrev pub run_fields :
        Policy keys Certificate → List Bytes → Outcome FileError (Policy keys Certificate)
    run_fields p [] = ok p
    run_fields p (cmd ∷ args) = do
      op ← parse_command cmd args
      lift_err FileError.rejected (apply keys Certificate p op)

    unfoldable pub parse_policy_file :
        Policy keys Certificate → List Bytes → Outcome FileError (Policy keys Certificate)
    parse_policy_file p [] = ok p
    parse_policy_file p (line ∷ lines) = do
      q ← run_fields p (fields (without_comment line))
      parse_policy_file q lines
