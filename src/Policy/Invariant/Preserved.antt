-- ===== src/Policy/Invariant/Preserved.antt =====
-- `AddCosigner` and `AddGroup` of demo/policy.go and the invariant.
use merkle_tree_certs.Prelude.{ℕ, ◌<◌, ◌≡◌, subst, arith}
use merkle_tree_certs.Prelude.{List, [], ◌∷◌, ◌++◌, length, length-append, All, All-weaken}
use merkle_tree_certs.Prelude.{ok, >>=-eq-ok, ok_subst}
use merkle_tree_certs.Prelude.{found, absent, found-some}
use merkle_tree_certs.Log.Hash.{Bytes}
use merkle_tree_certs.Config.Algorithm.{SignatureAlgorithm}
use merkle_tree_certs.Config.AnchorId.{id_string}
use merkle_tree_certs.Cosign.{KeyLibrary, PolicyError, new_cosigner_public}
use merkle_tree_certs.Prelude.{ℤ}
use merkle_tree_certs.Policy.{
  PolicyIndex, PolicyGroup, Policy, lookup, member_indices, add_cosigner, add_group,
}
use merkle_tree_certs.Policy.Computed.{IsIndex}
use merkle_tree_certs.Policy.Invariant.Maps.{Values, Values-lookup, Values-weaken}
use merkle_tree_certs.Policy.Invariant.{
  IsIndex-weaken, AreGroups-weaken, AreGroups-snoc, IsCa, IsCa-weaken, IsPolicy,
}

-- The indices of a group's members are those of names.
member_indices-All :
    (nc ng : ℕ) (names : List (Bytes × PolicyIndex)) (ms : List Bytes) (idxs : List PolicyIndex)
    → Values (IsIndex nc ng) names
    → member_indices names ms ≡ ok idxs
    → All (IsIndex nc ng) idxs
unfolding member_indices
member_indices-All nc ng names [] idxs v e =
    let same : [] ≡ idxs = cc in subst (All (IsIndex nc ng)) same tt
member_indices-All nc ng names (m ∷ ms) idxs v e =
    let (idx, ei, next) = >>=-eq-ok _ _ e in
    let (rest, er, last) = >>=-eq-ok _ _ next in
    let same : idx ∷ rest ≡ idxs = cc in
    subst (All (IsIndex nc ng)) same (
      Values-lookup (IsIndex nc ng) m names idx v (found-some PolicyError.unknown_member _ idx ei),
      member_indices-All nc ng names ms rest v er,
    )

module _ (keys : KeyLibrary) (Certificate : Type 0) where
  pub add_cosigner-IsPolicy :
      (p p' : Policy keys Certificate) (id : Bytes) (sig_alg : SignatureAlgorithm) (spki : Bytes)
      → IsPolicy keys Certificate p
      → add_cosigner keys Certificate p id sig_alg spki ≡ ok p'
      → IsPolicy keys Certificate p' × (length p.cosigners < length p'.cosigners)
  unfolding add_cosigner
  add_cosigner-IsPolicy p p' id sig_alg spki good e =
      let (_, _, e1) =
        >>=-eq-ok (absent PolicyError.already_defined (lookup (id_string id) p.names)) _ e in
      let (key, _, e2) =
        >>=-eq-ok (found PolicyError.malformed_key (keys.parse_pkix_public_key spki)) _ e1 in
      let (c, _, e3) = >>=-eq-ok (new_cosigner_public keys p.version id sig_alg key) _ e2 in
      let count = length-append p.cosigners (c ∷ []) in
      ok_subst (λ q. IsPolicy keys Certificate q × (length p.cosigners < length q.cosigners)) e3
        (
          record {
            names = (
              omega (arith, count),
              Values-weaken _ (IsIndex (length (p.cosigners ++ (c ∷ []))) (length p.groups)) p.names
                  (λ x. IsIndex-weaken _ _ _ _ x (omega (arith, count)) (omega arith)) good.names,
            );
            groups = AreGroups-weaken _ _ 0 p.groups (omega (arith, count)) good.groups;
            for_all =
                All-weaken _ (IsIndex (length (p.cosigners ++ (c ∷ []))) (length p.groups))
                  p.requirements_for_all_cas
                  (λ x. IsIndex-weaken _ _ _ _ x (omega (arith, count)) (omega arith)) good.for_all;
            cas =
                Values-weaken _
                  (IsCa Certificate (length (p.cosigners ++ (c ∷ []))) (length p.groups)) p.cas
                  (λ t. IsCa-weaken Certificate _ _ _ _ t (omega (arith, count)) (omega arith))
                  good.cas;
          },
          omega (arith, count),
        )

  pub add_group-IsPolicy :
      (p p' : Policy keys Certificate) (name : Bytes) (num : ℤ) (members : List Bytes)
      → IsPolicy keys Certificate p
      → add_group keys Certificate p name num members ≡ ok p'
      → IsPolicy keys Certificate p'
  unfolding add_group
  add_group-IsPolicy p p' name num members good e =
      let (_, _, e1) = >>=-eq-ok (absent PolicyError.already_defined (lookup name p.names)) _ e in
      let (idxs, ei, e2) = >>=-eq-ok (member_indices p.names members) _ e1 in
      let g : PolicyGroup = record { name = name; num = num; members = idxs } in
      let count = length-append p.groups (g ∷ []) in
      let nc = length p.cosigners in
      let ng = length (p.groups ++ (g ∷ [])) in
      ok_subst (IsPolicy keys Certificate) e2 (record {
        names = (
          omega (arith, count),
          Values-weaken _ (IsIndex nc ng) p.names
              (λ x. IsIndex-weaken _ _ _ _ x (omega arith) (omega (arith, count))) good.names,
        );
        groups =
            AreGroups-snoc nc 0 (length p.groups) p.groups g (omega arith) good.groups
              (member_indices-All nc (length p.groups) p.names members idxs good.names ei);
        for_all =
            All-weaken _ (IsIndex nc ng) p.requirements_for_all_cas
              (λ x. IsIndex-weaken _ _ _ _ x (omega arith) (omega (arith, count))) good.for_all;
        cas =
            Values-weaken _ (IsCa Certificate nc ng) p.cas
              (λ t. IsCa-weaken Certificate _ _ _ _ t (omega arith) (omega (arith, count)))
              good.cas;
      })
