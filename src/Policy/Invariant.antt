-- ===== src/Policy/Invariant.antt =====
-- What a policy of demo/policy.go keeps: its indices, ranges and subtrees.
pub mod Maps
pub mod Preserved
pub mod Entries
use merkle_tree_certs.Prelude.{
  ℕ, zero, suc, ◌+◌, ◌-◌, ◌^◌, ◌<◌, ◌≤◌, ◌≡◌, refl, sym, ap, ◌∙◌, subst, arith, Bool, true, false,
  ltb, if◌then◌else◌, not,
}
use merkle_tree_certs.Prelude.{
  List, [], ◌∷◌, ◌++◌, length, length-append, All, All-weaken, All-snoc, Option, none, some,
}
use merkle_tree_certs.Prelude.{
  Outcome, ok, err, ◌>>=◌, >>=-eq-ok, Bool-cases, inl, inr, check, ltb→le,
}
use merkle_tree_certs.Log.Hash.{Bytes, HashValue}
use merkle_tree_certs.Log.Subtree.{is_valid_subtree}
use merkle_tree_certs.Config.Algorithm.{SignatureAlgorithm}
use merkle_tree_certs.Config.AnchorId.{id_string}
use merkle_tree_certs.Cosign.{KeyLibrary, PolicyError, CosignerPublic, new_cosigner_public}
use merkle_tree_certs.Prelude.{ℤ}
use merkle_tree_certs.Policy.{
  PolicyIndex, PolicyGroup, RevokedRange, TrustedSubtree, TrustedCa, Policy, lookup, update, found,
  absent, member_indices, add_cosigner, add_group, require_cosigners_for_ca,
  require_cosigners_for_all_cas, revoke_range, add_trusted_subtree, register_ca, with_ca,
}
use merkle_tree_certs.Policy.Computed.{IsIndex, AreGroups}
use merkle_tree_certs.Policy.Invariant.Maps.{Values, Values-lookup, Values-update, Values-weaken}

pub IsIndex-weaken :
    (nc ng nc' ng' : ℕ) (idx : PolicyIndex)
    → nc ≤ nc'
    → ng ≤ ng'
    → IsIndex nc ng idx
    → IsIndex nc' ng' idx
IsIndex-weaken nc ng nc' ng' idx h k lt = elim (Bool-cases idx.is_group) [
  | inl g ↦ let lt' : idx.index < ng = rw g at lt in rw g (omega arith)
  | inr g ↦ let lt' : idx.index < nc = rw g at lt in rw g (omega arith)
]

pub AreGroups-weaken :
    (nc nc' i : ℕ) (gs : List PolicyGroup) → nc ≤ nc' → AreGroups nc i gs → AreGroups nc' i gs
AreGroups-weaken nc nc' i [] h a = tt
AreGroups-weaken nc nc' i (g ∷ gs) h (m, a) = (
  All-weaken (IsIndex nc i) (IsIndex nc' i) g.members
      (λ x. IsIndex-weaken nc i nc' i x h (omega arith)) m,
  AreGroups-weaken nc nc' (i + 1) gs h a,
)

pub AreGroups-snoc :
    (nc i ng : ℕ) (gs : List PolicyGroup) (g : PolicyGroup)
    → ng ≡ i + length gs
    → AreGroups nc i gs
    → All (IsIndex nc ng) g.members
    → AreGroups nc i (gs ++ (g ∷ []))
AreGroups-snoc nc i ng [] g e a m =
    let same : ng ≡ i = omega arith in (subst (λ n. All (IsIndex nc n) g.members) same m, tt)
AreGroups-snoc nc i ng (x ∷ gs) g e (h, a) m =
    (h, AreGroups-snoc nc (i + 1) ng gs g (omega arith) a m)

-- An entry for a CA with indices in range, ordered ranges and subtrees that are valid.
pub record IsCa (Certificate : Type 0) (nc ng : ℕ) (t : TrustedCa Certificate) : Type 0 where
  pub cosigner : t.cosigner_index < nc
  pub requirements : All (IsIndex nc ng) t.requirements
  pub ranges : All (λ (r : RevokedRange). r.min_serial ≤ r.max_serial) t.revoked_ranges
  pub subtrees :
      All (λ (s : TrustedSubtree). is_valid_subtree s.start s.end ≡ true) t.trusted_subtrees

pub IsCa-weaken :
    (Certificate : Type 0) (nc ng nc' ng' : ℕ) (t : TrustedCa Certificate)
    → nc ≤ nc'
    → ng ≤ ng'
    → IsCa Certificate nc ng t
    → IsCa Certificate nc' ng' t
IsCa-weaken Certificate nc ng nc' ng' t h k c =
    let lt = c.cosigner in
    record {
      cosigner = omega arith;
      requirements =
          All-weaken (IsIndex nc ng) (IsIndex nc' ng') t.requirements
            (λ x. IsIndex-weaken nc ng nc' ng' x h k) c.requirements;
      ranges = c.ranges;
      subtrees = c.subtrees;
    }

module _ (keys : KeyLibrary) (Certificate : Type 0) where
  -- Every index of a policy stands for a cosigner or a group that it has, and the members of a group
  -- for cosigners and earlier groups.
  pub record IsPolicy (p : Policy keys Certificate) : Type 0 where
    pub names : Values (IsIndex (length p.cosigners) (length p.groups)) p.names
    pub groups : AreGroups (length p.cosigners) 0 p.groups
    pub for_all : All (IsIndex (length p.cosigners) (length p.groups)) p.requirements_for_all_cas
    pub cas : Values (IsCa Certificate (length p.cosigners) (length p.groups)) p.cas
