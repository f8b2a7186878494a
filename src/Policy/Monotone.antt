-- ===== src/Policy/Monotone.antt =====
-- `EvaluateGroups` of demo/policy.go for more signatures.
use native.Mathlib.Decide.{dec_lt}
use merkle_tree_certs.Prelude.{
  ℕ, ◌+◌, ◌<◌, ◌≤◌, ◌≡◌, refl, sym, ap, ◌∙◌, subst, arith, Bool, true, false, if◌then◌else◌,
}
use merkle_tree_certs.Prelude.{List, [], ◌∷◌, length, get_elem?, All, some}
use merkle_tree_certs.Prelude.{ok, must, >>=-eq-ok, ok_subst, Bool-cases, inl, inr}
use merkle_tree_certs.Cosign.{PolicyError}
use merkle_tree_certs.Prelude.{ℤ}
use merkle_tree_certs.Policy.{PolicyIndex, PolicyGroup}
use merkle_tree_certs.Policy.Evaluate.{
  PolicyResult, satisfied, count_members, reaches, evaluate_groups,
}
use merkle_tree_certs.Policy.Computed.{
  IsIndex, AreGroups, Computes, must-ok, evaluate_groups-Computes,
}

-- What is true in one list is true in the other, below an index.
abbrev pub Implies : ℕ → List Bool → List Bool → Type 0
Implies n xs ys = (j : ℕ) → j < n → get_elem? xs j ≡ some true → get_elem? ys j ≡ some true

module _ (nc i : ℕ) (r s : PolicyResult) (cosigners : Implies nc r.cosigners s.cosigners)
    (groups : Implies i r.groups s.groups) where
  satisfied_mono :
      (m : PolicyIndex) → IsIndex nc i m → satisfied r m ≡ ok true → satisfied s m ≡ ok true
  satisfied_mono m h e = elim (Bool-cases m.is_group) [
    | inl g ↦
        let h' : m.index < i = rw g at h in
        let e' : must {E = PolicyError} (get_elem? r.groups m.index) ≡ ok true = rw g at e in
        rw g (ap must (groups m.index h' (must-ok _ true e')))
    | inr g ↦
        let h' : m.index < nc = rw g at h in
        let e' : must {E = PolicyError} (get_elem? r.cosigners m.index) ≡ ok true = rw g at e in
        rw g (ap must (cosigners m.index h' (must-ok _ true e')))
  ]

  -- A step of the count, from a lower count to a higher one.
  next_count :
      (m : PolicyIndex) (x y : Bool) (c d : ℕ)
      → IsIndex nc i m
      → satisfied r m ≡ ok x
      → satisfied s m ≡ ok y
      → c ≤ d
      → (if x then c + 1 else c) ≤ (if y then d + 1 else d)
  next_count m false false c d h ex ey le = le
  next_count m false true c d h ex ey le = omega arith
  next_count m true true c d h ex ey le = omega arith
  next_count m true false c d h ex ey le = let t = satisfied_mono m h ex in cc

  count_members_mono :
      (ms : List PolicyIndex) (c d a b : ℕ)
      → All (IsIndex nc i) ms
      → c ≤ d
      → count_members r ms c ≡ ok a
      → count_members s ms d ≡ ok b
      → a ≤ b
  unfolding count_members
  count_members_mono [] c d a b all le ea eb =
      ok_subst (λ t. t ≤ b) ea (ok_subst (λ t. c ≤ t) eb le)
  count_members_mono (m ∷ ms) c d a b (h, all) le ea eb =
      let (x, ex, ra) = >>=-eq-ok (satisfied r m) _ ea in
      let (y, ey, rb) = >>=-eq-ok (satisfied s m) _ eb in
      count_members_mono ms _ _ a b all (next_count m x y c d h ex ey le) ra rb

reaches_mono : (a b : ℕ) (n : ℤ) → a ≤ b → reaches a n ≡ true → reaches b n ≡ true
reaches_mono a b (ℤ.pos n) le e = ground arith
reaches_mono a b (ℤ.negsuc n) le e = refl

Computes-Implies :
    (nc i : ℕ) (gs : List PolicyGroup) (r s : PolicyResult)
    → Implies nc r.cosigners s.cosigners
    → Implies i r.groups s.groups
    → AreGroups nc i gs
    → Computes r i gs
    → Computes s i gs
    → Implies (i + length gs) r.groups s.groups
Computes-Implies nc i [] r s cs before a sr ss = λ j h. before j (omega arith)
Computes-Implies nc i (g ∷ gs) r s cs before (h, a) ((c, ec, er), sr) ((d, ed, es), ss) =
    let le = count_members_mono nc i r s cs before g.members 0 0 c d h (omega arith) ec ed in
    let here : Implies (i + 1) r.groups s.groups = λ j less t. elim (dec_lt j i) [
      | yes earlier ↦ before j earlier t
      | no later ↦
          let same : j ≡ i = omega arith in
          let t' : get_elem? r.groups i ≡ some true = rw same at t in
          let holds : reaches c g.num ≡ true = cc (er, t') in
          rw same (es ∙ ap some (reaches_mono c d g.num le holds))
    ] in
    λ j less. Computes-Implies nc (i + 1) gs r s cs here a sr ss j (omega arith)

-- For groups whose members are cosigners and earlier groups: where the cosigners that signed also
-- sign the second time, every group that `EvaluateGroups` finds to hold the first time holds the
-- second time.
pub evaluate_groups_mono :
    (groups : List PolicyGroup) (signed more : List Bool) (r s : PolicyResult)
    → AreGroups (length signed) 0 groups
    → length more ≡ length signed
    → Implies (length signed) signed more
    → evaluate_groups groups signed ≡ ok r
    → evaluate_groups groups more ≡ ok s
    → Implies (length groups) r.groups s.groups
evaluate_groups_mono groups signed more r s a len implies er es =
    let (r', er', rc, _, rs) = evaluate_groups-Computes groups signed a in
    let (s', es', sc, _, ss) =
      evaluate_groups-Computes groups more (subst (λ n. AreGroups n 0 groups) (sym len) a) in
    let same_r : r' ≡ r = cc (er, er') in
    let same_s : s' ≡ s = cc (es, es') in
    let implied : Implies (length signed) r'.cosigners s'.cosigners = rw (rc, sc) implies in
    let all =
      Computes-Implies (length signed) 0 groups r' s' implied (λ j h. absurd (omega arith)) a rs
        ss in
    λ j less t. rw (← same_s) (all j (omega arith) (rw (← same_r) at t))
