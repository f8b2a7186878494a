-- ===== src/Runs/PolicyRuns.antt =====
-- A policy with a CA, two mirrors and two groups, and the theorems of demo/policy.go at it.
use merkle_tree_certs.Prelude.{
  ◌≡◌, refl, arith, List, [], ◌∷◌, length, ok, true, false, some, Outcome, err, panic, stuck,
}
use merkle_tree_certs.Log.Hash.{Bytes}
use merkle_tree_certs.Config.Version.{version_plants07}
use merkle_tree_certs.Config.Algorithm.{ed25519}
use merkle_tree_certs.Config.Base128.{parse_loop, parse_base128}
use merkle_tree_certs.Config.AnchorId.{format_decimal, string_loop, id_string}
use merkle_tree_certs.Cosign.{KeyLibrary, KeyKind, PolicyError, new_cosigner_public}
use merkle_tree_certs.Prelude.{ℤ}
use merkle_tree_certs.Policy.{
  PolicyGroup, Policy, member_indices, add_cosigner, add_group, require_cosigners_for_ca,
  require_cosigners_for_all_cas, revoke_range, register_ca,
}
use merkle_tree_certs.Policy.Evaluate.{PolicyResult, count_members, groups_loop, evaluate_groups}
use merkle_tree_certs.Policy.Fixpoint.{Solves, evaluate_groups-Solves}
use merkle_tree_certs.Prelude.{zero, suc}
use merkle_tree_certs.Policy.Monotone.{Implies, evaluate_groups_mono}
use merkle_tree_certs.Policy.Build.{Operation, build, empty_policy}

-- A key is its kind, and every public key info holds a key of Ed25519.
abbrev pub toy_keys : KeyLibrary
toy_keys = record {
  PublicKey = KeyKind;
  kind = λ k. k;
  parse_pkix_public_key = λ spki. some KeyKind.ed25519_key;
}

-- The CA 1, the cosigners 2 and 3, the group `m` of one of the cosigners and the group `g` of both
-- the CA and `m`.
abbrev operations : List (Operation Bytes)
operations =
    Operation.ca (9 ∷ []) (1 ∷ []) ed25519 [] 4 100
    ∷ Operation.cosigner (2 ∷ []) ed25519 []
    ∷ Operation.cosigner (3 ∷ []) ed25519 []
    ∷ Operation.group (109 ∷ []) (ℤ.pos 1) ((50 ∷ []) ∷ (51 ∷ []) ∷ [])
    ∷ Operation.group (103 ∷ []) (ℤ.pos 2) ((49 ∷ []) ∷ (109 ∷ []) ∷ [])
    ∷ Operation.require_for_all (103 ∷ [])
    ∷ Operation.require_for_ca (1 ∷ []) (50 ∷ [])
    ∷ Operation.revoke (1 ∷ []) 10 12
    ∷ []

abbrev value_or : Outcome PolicyError (Policy toy_keys Bytes) → Policy toy_keys Bytes
value_or (ok p) = p
value_or (err e) = empty_policy toy_keys Bytes version_plants07
value_or panic = empty_policy toy_keys Bytes version_plants07
value_or stuck = empty_policy toy_keys Bytes version_plants07

built : Policy toy_keys Bytes
unfolding build register_ca add_cosigner add_group member_indices require_cosigners_for_all_cas
    require_cosigners_for_ca revoke_range new_cosigner_public id_string string_loop format_decimal
    parse_base128 parse_loop
built = value_or (build toy_keys Bytes (empty_policy toy_keys Bytes version_plants07) operations)

-- The CA and one mirror signed.
evaluate_run :
    evaluate_groups built.groups (true ∷ false ∷ true ∷ [])
    ≡ ok (record { cosigners = true ∷ false ∷ true ∷ []; groups = true ∷ true ∷ [] })
unfolding evaluate_groups groups_loop count_members built build register_ca add_cosigner add_group
    member_indices require_cosigners_for_all_cas require_cosigners_for_ca revoke_range
    new_cosigner_public id_string string_loop format_decimal parse_base128 parse_loop
evaluate_run = refl

-- A group of the first cosigner and a group of that group and the second one.
abbrev two_groups : List PolicyGroup
two_groups =
    record { name = []; num = ℤ.pos 1; members = record { is_group = false; index = 0 } ∷ [] }
    ∷ record {
      name = [];
      num = ℤ.pos 2;
      members = record { is_group = true; index = 0 } ∷ record { is_group = false; index = 1 } ∷ [];
    }
    ∷ []

evaluate_groups-Solves_example :
    (r : PolicyResult) × (evaluate_groups two_groups (true ∷ false ∷ []) ≡ ok r)
    × (r.cosigners ≡ true ∷ false ∷ [])
    × (length r.groups ≡ 2)
    × Solves r 0 two_groups
evaluate_groups-Solves_example =
    evaluate_groups-Solves two_groups (true ∷ false ∷ [])
      ((omega arith, tt), ((omega arith, (omega arith, tt)), tt))

one_signed :
    evaluate_groups two_groups (true ∷ false ∷ [])
    ≡ ok (record { cosigners = true ∷ false ∷ []; groups = true ∷ false ∷ [] })
unfolding evaluate_groups groups_loop count_members
one_signed = refl

both_signed :
    evaluate_groups two_groups (true ∷ true ∷ [])
    ≡ ok (record { cosigners = true ∷ true ∷ []; groups = true ∷ true ∷ [] })
unfolding evaluate_groups groups_loop count_members
both_signed = refl

more_signed : Implies 2 (true ∷ false ∷ []) (true ∷ true ∷ [])
more_signed zero h e = refl
more_signed (suc zero) h e = refl
more_signed (suc (suc j)) h e = absurd (omega arith)

evaluate_groups_mono_example : Implies 2 (true ∷ false ∷ []) (true ∷ true ∷ [])
evaluate_groups_mono_example =
    evaluate_groups_mono two_groups (true ∷ false ∷ []) (true ∷ true ∷ [])
      (record { cosigners = true ∷ false ∷ []; groups = true ∷ false ∷ [] })
      (record { cosigners = true ∷ true ∷ []; groups = true ∷ true ∷ [] })
      ((omega arith, tt), ((omega arith, (omega arith, tt)), tt)) refl more_signed one_signed
      both_signed
