-- ===== src/Policy/Build.antt =====
-- Policies as the demo tool makes them: a sequence of the operations of demo/policy.go, as
-- `loadCACerts` and `parsePolicyFile` of demo/verify.go call them, from the empty policy.
use merkle_tree_certs.Prelude.{ℕ, ◌≡◌, List, [], ◌∷◌}
use merkle_tree_certs.Prelude.{Outcome, ok, ◌>>=◌}
use merkle_tree_certs.Log.Hash.{Bytes, HashValue}
use merkle_tree_certs.Config.Version.{DraftVersion}
use merkle_tree_certs.Config.Algorithm.{SignatureAlgorithm}
use merkle_tree_certs.Cosign.{KeyLibrary, PolicyError}
use merkle_tree_certs.Prelude.{ℤ}
use merkle_tree_certs.Policy.{
  Policy, add_cosigner, add_group, require_cosigners_for_ca, require_cosigners_for_all_cas,
  revoke_range, add_trusted_subtree, register_ca,
}
use merkle_tree_certs.Policy.Invariant.{IsPolicy}
use merkle_tree_certs.Policy.Invariant.Preserved.{add_cosigner-IsPolicy, add_group-IsPolicy}
use merkle_tree_certs.Policy.Invariant.Entries.{
  require_cosigners_for_ca-IsPolicy, require_cosigners_for_all_cas-IsPolicy, revoke_range-IsPolicy,
  add_trusted_subtree-IsPolicy, register_ca-IsPolicy,
}

-- A call with its arguments.
pub data Operation (Certificate : Type 0) : Type 0 where
  cosigner : Bytes → SignatureAlgorithm → Bytes → Operation Certificate
  group : Bytes → ℤ → List Bytes → Operation Certificate
  require_for_ca : Bytes → Bytes → Operation Certificate
  require_for_all : Bytes → Operation Certificate
  revoke : Bytes → ℕ → ℕ → Operation Certificate
  trust : Bytes → ℕ → ℕ → ℕ → HashValue → Operation Certificate
  ca : Certificate → Bytes → SignatureAlgorithm → Bytes → ℕ → ℕ → Operation Certificate

module _ (keys : KeyLibrary) (Certificate : Type 0) where
  abbrev pub apply :
      Policy keys Certificate
      → Operation Certificate
      → Outcome PolicyError (Policy keys Certificate)
  apply p (cosigner id sig_alg spki) = add_cosigner keys Certificate p id sig_alg spki
  apply p (group name num members) = add_group keys Certificate p name num members
  apply p (require_for_ca id name) = require_cosigners_for_ca keys Certificate p id name
  apply p (require_for_all name) = require_cosigners_for_all_cas keys Certificate p name
  apply p (revoke id lo hi) = revoke_range keys Certificate p id lo hi
  apply p (trust id log start end hash) =
      add_trusted_subtree keys Certificate p id log start end hash
  apply p (ca certificate id sig_alg spki lo hi) =
      register_ca keys Certificate p certificate id sig_alg spki lo hi

  -- The first error ends the sequence.
  unfoldable pub build :
      Policy keys Certificate
      → List (Operation Certificate)
      → Outcome PolicyError (Policy keys Certificate)
  build p [] = ok p
  build p (op ∷ ops) = do q ← apply p op; build q ops

  abbrev pub empty_policy : DraftVersion → Policy keys Certificate
  empty_policy version = record {
    version = version;
    names = [];
    cosigners = [];
    groups = [];
    requirements_for_all_cas = [];
    cas = [];
  }

  pub apply-IsPolicy :
      (p p' : Policy keys Certificate) (op : Operation Certificate)
      → IsPolicy keys Certificate p
      → apply p op ≡ ok p'
      → IsPolicy keys Certificate p'
  apply-IsPolicy p p' (cosigner id sig_alg spki) good e =
      (add_cosigner-IsPolicy keys Certificate p p' id sig_alg spki good e).0
  apply-IsPolicy p p' (group name num members) good e =
      add_group-IsPolicy keys Certificate p p' name num members good e
  apply-IsPolicy p p' (require_for_ca id name) good e =
      require_cosigners_for_ca-IsPolicy keys Certificate p p' id name good e
  apply-IsPolicy p p' (require_for_all name) good e =
      require_cosigners_for_all_cas-IsPolicy keys Certificate p p' name good e
  apply-IsPolicy p p' (revoke id lo hi) good e =
      revoke_range-IsPolicy keys Certificate p p' id lo hi good e
  apply-IsPolicy p p' (trust id log start end hash) good e =
      add_trusted_subtree-IsPolicy keys Certificate p p' id log start end hash good e
  apply-IsPolicy p p' (ca certificate id sig_alg spki lo hi) good e =
      register_ca-IsPolicy keys Certificate p p' certificate id sig_alg spki lo hi good e

  pub empty_policy-IsPolicy :
      (version : DraftVersion) → IsPolicy keys Certificate (empty_policy version)
  empty_policy-IsPolicy version = record { names = tt; groups = tt; for_all = tt; cas = tt }
