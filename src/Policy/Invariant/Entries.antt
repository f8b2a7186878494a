-- ===== src/Policy/Invariant/Entries.antt =====
-- The operations of demo/policy.go on requirements and on the entries of CAs, and the invariant.
use merkle_tree_certs.Prelude.{ℕ, ◌-◌, ◌^◌, ◌≤◌, ◌≡◌, refl, arith, Bool, true, false, ltb, not}
use merkle_tree_certs.Prelude.{length, All, All-snoc}
use merkle_tree_certs.Prelude.{ok, >>=-eq-ok, ok_subst, Bool-cases, inl, inr, check, ltb→le, ltb→lt}
use merkle_tree_certs.Prelude.{found, absent, found-some, passed}
use merkle_tree_certs.Log.Hash.{Bytes, HashValue}
use merkle_tree_certs.Log.Subtree.{is_valid_subtree}
use merkle_tree_certs.Config.Algorithm.{SignatureAlgorithm}
use merkle_tree_certs.Config.AnchorId.{id_string}
use merkle_tree_certs.Cosign.{KeyLibrary, PolicyError}
use merkle_tree_certs.Policy.{
  RevokedRange, TrustedSubtree, TrustedCa, Policy, lookup, add_cosigner, require_cosigners_for_ca,
  require_cosigners_for_all_cas, revoke_range, add_trusted_subtree, register_ca, with_ca,
}
use merkle_tree_certs.Policy.Computed.{IsIndex}
use merkle_tree_certs.Policy.Invariant.Maps.{Values-lookup, Values-update}
use merkle_tree_certs.Policy.Invariant.{IsCa, IsPolicy}
use merkle_tree_certs.Policy.{outside_ranges}
use merkle_tree_certs.Policy.Invariant.Preserved.{add_cosigner-IsPolicy}

not-check : (b : Bool) → check (not b) PolicyError.reversed_range ≡ ok tt → b ≡ false
not-check true e = cc
not-check false e = refl

outside_ranges_lem :
    (lo hi : ℕ) → All (λ (r : RevokedRange). r.min_serial ≤ r.max_serial) (outside_ranges lo hi)
outside_ranges_lem lo hi = elim (Bool-cases (ltb 0 lo)) [
  | inl t ↦ elim (Bool-cases (ltb hi (2 ^ 64 - 1))) [
    | inl u ↦ rw (t, u) (omega arith, (omega (arith, ltb→lt hi (2 ^ 64 - 1) u), tt))
    | inr d ↦ rw (t, d) (omega arith, tt)
  ]
  | inr f ↦ elim (Bool-cases (ltb hi (2 ^ 64 - 1))) [
    | inl u ↦ rw (f, u) (omega (arith, ltb→lt hi (2 ^ 64 - 1) u), tt)
    | inr d ↦ rw (f, d) tt
  ]
]

module _ (keys : KeyLibrary) (Certificate : Type 0) where
  with_ca-IsPolicy :
      (p : Policy keys Certificate) (ca : Bytes) (f : TrustedCa Certificate → TrustedCa Certificate)
      → IsPolicy keys Certificate p
      → ((t : TrustedCa Certificate)
          → IsCa Certificate (length p.cosigners) (length p.groups) t
          → IsCa Certificate (length p.cosigners) (length p.groups) (f t))
      → IsPolicy keys Certificate (with_ca keys Certificate p ca f)
  with_ca-IsPolicy p ca f good keeps = record {
    names = good.names;
    groups = good.groups;
    for_all = good.for_all;
    cas =
        Values-update (IsCa Certificate (length p.cosigners) (length p.groups)) ca f p.cas keeps
          good.cas;
  }

  pub require_cosigners_for_ca-IsPolicy :
      (p p' : Policy keys Certificate) (ca name : Bytes)
      → IsPolicy keys Certificate p
      → require_cosigners_for_ca keys Certificate p ca name ≡ ok p'
      → IsPolicy keys Certificate p'
  unfolding require_cosigners_for_ca
  require_cosigners_for_ca-IsPolicy p p' ca name good e =
      let P = IsIndex (length p.cosigners) (length p.groups) in
      let (idx, ei, e1) = >>=-eq-ok (found PolicyError.unknown_name (lookup name p.names)) _ e in
      let (entry, _, e2) =
        >>=-eq-ok (found PolicyError.unknown_ca (lookup (id_string ca) p.cas)) _ e1 in
      let in_range : P idx = Values-lookup P name p.names idx good.names (found-some _ _ idx ei) in
      ok_subst (IsPolicy keys Certificate) e2 (
        with_ca-IsPolicy p (id_string ca) _ good (λ t c. record {
          cosigner = c.cosigner;
          requirements = All-snoc P t.requirements idx c.requirements in_range;
          ranges = c.ranges;
          subtrees = c.subtrees;
        }))

  pub require_cosigners_for_all_cas-IsPolicy :
      (p p' : Policy keys Certificate) (name : Bytes)
      → IsPolicy keys Certificate p
      → require_cosigners_for_all_cas keys Certificate p name ≡ ok p'
      → IsPolicy keys Certificate p'
  unfolding require_cosigners_for_all_cas
  require_cosigners_for_all_cas-IsPolicy p p' name good e =
      let P = IsIndex (length p.cosigners) (length p.groups) in
      let (idx, ei, e1) = >>=-eq-ok (found PolicyError.unknown_name (lookup name p.names)) _ e in
      let in_range : P idx = Values-lookup P name p.names idx good.names (found-some _ _ idx ei) in
      ok_subst (IsPolicy keys Certificate) e1 (record {
        names = good.names;
        groups = good.groups;
        for_all = All-snoc P p.requirements_for_all_cas idx good.for_all in_range;
        cas = good.cas;
      })

  pub revoke_range-IsPolicy :
      (p p' : Policy keys Certificate) (ca : Bytes) (lo hi : ℕ)
      → IsPolicy keys Certificate p
      → revoke_range keys Certificate p ca lo hi ≡ ok p'
      → IsPolicy keys Certificate p'
  unfolding revoke_range
  revoke_range-IsPolicy p p' ca lo hi good e =
      let (_, ec, e1) = >>=-eq-ok (check (not (ltb hi lo)) PolicyError.reversed_range) _ e in
      let (entry, _, e2) =
        >>=-eq-ok (found PolicyError.unknown_ca (lookup (id_string ca) p.cas)) _ e1 in
      ok_subst (IsPolicy keys Certificate) e2 (
        with_ca-IsPolicy p (id_string ca) _ good (λ t c. record {
          cosigner = c.cosigner;
          requirements = c.requirements;
          ranges =
              All-snoc (λ (r : RevokedRange). r.min_serial ≤ r.max_serial) t.revoked_ranges _
                c.ranges (ltb→le hi lo (not-check (ltb hi lo) ec));
          subtrees = c.subtrees;
        }))

  pub add_trusted_subtree-IsPolicy :
      (p p' : Policy keys Certificate) (ca : Bytes) (log start end : ℕ) (hash : HashValue)
      → IsPolicy keys Certificate p
      → add_trusted_subtree keys Certificate p ca log start end hash ≡ ok p'
      → IsPolicy keys Certificate p'
  unfolding add_trusted_subtree
  add_trusted_subtree-IsPolicy p p' ca log start end hash good e =
      let (_, ec, e1) =
        >>=-eq-ok (check (is_valid_subtree start end) PolicyError.invalid_subtree) _ e in
      let (entry, _, e2) =
        >>=-eq-ok (found PolicyError.unknown_ca (lookup (id_string ca) p.cas)) _ e1 in
      ok_subst (IsPolicy keys Certificate) e2 (
        with_ca-IsPolicy p (id_string ca) _ good (λ t c. record {
          cosigner = c.cosigner;
          requirements = c.requirements;
          ranges = c.ranges;
          subtrees =
              All-snoc (λ (s : TrustedSubtree). is_valid_subtree s.start s.end ≡ true)
                t.trusted_subtrees _ c.subtrees (passed (is_valid_subtree start end) _ ec);
        }))

  pub register_ca-IsPolicy :
      (p p' : Policy keys Certificate) (cert : Certificate) (ca : Bytes)
      (sig_alg : SignatureAlgorithm) (spki : Bytes) (lo hi : ℕ)
      → IsPolicy keys Certificate p
      → register_ca keys Certificate p cert ca sig_alg spki lo hi ≡ ok p'
      → IsPolicy keys Certificate p'
  unfolding register_ca
  register_ca-IsPolicy p p' cert ca sig_alg spki lo hi good e =
      let (_, _, e1) =
        >>=-eq-ok (absent PolicyError.already_defined (lookup (id_string ca) p.cas)) _ e in
      let (q, eq, e2) = >>=-eq-ok (add_cosigner keys Certificate p ca sig_alg spki) _ e1 in
      let (good', more) = add_cosigner-IsPolicy keys Certificate p q ca sig_alg spki good eq in
      ok_subst (IsPolicy keys Certificate) e2 (record {
        names = good'.names;
        groups = good'.groups;
        for_all = good'.for_all;
        cas = (
          record {
            cosigner = omega arith;
            requirements = tt;
            ranges = outside_ranges_lem lo hi;
            subtrees = tt;
          },
          good'.cas,
        );
      })
