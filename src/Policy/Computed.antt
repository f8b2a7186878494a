-- ===== src/Policy/Computed.antt =====
-- `EvaluateGroups` of demo/policy.go: its loop ends with a result that its own counts reproduce.
use mathlib.Core.Path.{ap₂, fun_ext}
use merkle_tree_certs.Prelude.{
  ℕ, ◌+◌, ◌<◌, ◌≤◌, ◌≡◌, refl, ap, ◌∙◌, arith, Bool, false, if◌then◌else◌,
}
use merkle_tree_certs.Prelude.{
  List, [], ◌∷◌, length, get_elem?, set, replicate, All, some, length-replicate, length-set,
  get_elem?-set_here, get_elem?-set_before, get_elem?_total,
}
use merkle_tree_certs.Prelude.{ok, must, ◌>>=◌, Bool-cases, inl, inr}
use merkle_tree_certs.Prelude.{Option, none}
use merkle_tree_certs.Cosign.{PolicyError}
use merkle_tree_certs.Policy.{PolicyIndex, PolicyGroup}
use merkle_tree_certs.Policy.Evaluate.{
  PolicyResult, satisfied, count_members, reaches, groups_loop, evaluate_groups,
}

pub must-ok : (m : Option Bool) (b : Bool) → must {E = PolicyError} m ≡ ok b → m ≡ some b
must-ok none b e = cc
must-ok (some a) b e = cc

-- An index to one of `nc` cosigners or of the first `ng` groups.
abbrev pub IsIndex : ℕ → ℕ → PolicyIndex → Type 0
IsIndex nc ng idx = idx.index < (if idx.is_group then ng else nc)

-- The members of a group come before it: cosigners, and groups with a lower index.
abbrev pub AreGroups : ℕ → ℕ → List PolicyGroup → Type 0
AreGroups nc i [] = Unit {0}
AreGroups nc i (g ∷ gs) = All (IsIndex nc i) g.members × AreGroups nc (i + 1) gs

-- From group `i` on, a group's entry is what the count of its members makes it.
abbrev pub Computes : PolicyResult → ℕ → List PolicyGroup → Type 0
Computes r i [] = Unit {0}
Computes r i (g ∷ gs) =
    ((count : ℕ) × (count_members r g.members 0 ≡ ok count)
      × (get_elem? r.groups i ≡ some (reaches count g.num)))
    × Computes r (i + 1) gs

-- Results that agree on the cosigners and on the first `i` groups.
abbrev Agree : ℕ → PolicyResult → PolicyResult → Type 0
Agree i r s =
    (r.cosigners ≡ s.cosigners) × ((j : ℕ) → j < i → get_elem? r.groups j ≡ get_elem? s.groups j)

module _ (nc i : ℕ) where
  satisfied-Agree :
      (r s : PolicyResult) (idx : PolicyIndex)
      → Agree i r s
      → IsIndex nc i idx
      → satisfied r idx ≡ satisfied s idx
  satisfied-Agree r s idx (same, agree) h = elim (Bool-cases idx.is_group) [
    | inl g ↦ let h' : idx.index < i = rw g at h in rw g (ap must (agree idx.index h'))
    | inr g ↦ rw g (ap (λ c. must (get_elem? c idx.index)) same)
  ]

  count_members-Agree :
      (r s : PolicyResult) (ms : List PolicyIndex) (count : ℕ)
      → Agree i r s
      → All (IsIndex nc i) ms
      → count_members r ms count ≡ count_members s ms count
  unfolding count_members
  count_members-Agree r s [] count agree a = refl
  count_members-Agree r s (m ∷ ms) count agree (h, a) =
      ap₂ (λ x f. x >>= f) (satisfied-Agree r s m agree h)
        (fun_ext (λ holds. count_members-Agree r s ms (if holds then count + 1 else count) agree a))

  -- No index is out of range.
  pub satisfied_total :
      (r : PolicyResult) (idx : PolicyIndex)
      → length r.cosigners ≡ nc
      → i ≤ length r.groups
      → IsIndex nc i idx
      → (b : Bool) × (satisfied r idx ≡ ok b)
  satisfied_total r idx cs gs h = elim (Bool-cases idx.is_group) [
    | inl g ↦
        let h' : idx.index < i = rw g at h in
        let (b, e) = get_elem?_total r.groups idx.index (omega arith) in
        (
          b,
          ap (λ t. must (get_elem? (if t then r.groups else r.cosigners) idx.index)) g ∙ ap must e,
        )
    | inr g ↦
        let h' : idx.index < nc = rw g at h in
        let (b, e) = get_elem?_total r.cosigners idx.index (omega arith) in
        (
          b,
          ap (λ t. must (get_elem? (if t then r.groups else r.cosigners) idx.index)) g ∙ ap must e,
        )
  ]

  count_members_total :
      (r : PolicyResult) (ms : List PolicyIndex) (count : ℕ)
      → length r.cosigners ≡ nc
      → i ≤ length r.groups
      → All (IsIndex nc i) ms
      → (c : ℕ) × (count_members r ms count ≡ ok c)
  unfolding count_members
  count_members_total r [] count cs gs a = (count, refl)
  count_members_total r (m ∷ ms) count cs gs (h, a) =
      let (b, e) = satisfied_total r m cs gs h in
      let (c, d) = count_members_total r ms (if b then count + 1 else count) cs gs a in (c, rw e d)

-- The state after group `i`.
abbrev decided : ℕ → Bool → PolicyResult → PolicyResult
decided i b ret = record { cosigners = ret.cosigners; groups = set ret.groups i b }

decided-Agree :
    (i : ℕ) (b : Bool) (r ret : PolicyResult) → Agree (i + 1) r (decided i b ret) → Agree i r ret
decided-Agree i b r ret (same, agree) =
    (same, λ j h. agree j (omega arith) ∙ get_elem?-set_before ret.groups i j b h)

groups_loop-Computes :
    (nc i : ℕ) (gs : List PolicyGroup) (ret : PolicyResult)
    → length ret.cosigners ≡ nc
    → length ret.groups ≡ i + length gs
    → AreGroups nc i gs
    → (r : PolicyResult) × (groups_loop i gs ret ≡ ok r)
      × (length r.groups ≡ length ret.groups)
      × Agree i r ret
      × Computes r i gs
unfolding groups_loop
groups_loop-Computes nc i [] ret cs len a = (ret, refl, refl, (refl, λ j h. refl), tt)
groups_loop-Computes nc i (g ∷ gs) ret cs len (h, a) =
    let (c, ec) = count_members_total nc i ret g.members 0 cs (omega arith) h in
    let b = reaches c g.num in
    let shape = length-set ret.groups i b in
    let (r, er, same_length, agree, computed) =
      groups_loop-Computes nc (i + 1) gs (decided i b ret) cs (omega arith) a in
    let agree' = decided-Agree i b r ret agree in
    (
      r,
      rw ec er,
      same_length ∙ shape,
      agree',
      (
        (
          c,
          count_members-Agree nc i r ret g.members 0 agree' h ∙ ec,
          agree.1 i (omega arith) ∙ get_elem?-set_here ret.groups i b (omega arith),
        ),
        computed,
      ),
    )

-- The result of `EvaluateGroups` as its counts say.
pub evaluate_groups-Computes :
    (groups : List PolicyGroup) (cosigners : List Bool)
    → AreGroups (length cosigners) 0 groups
    → (r : PolicyResult) × (evaluate_groups groups cosigners ≡ ok r)
      × (r.cosigners ≡ cosigners)
      × (length r.groups ≡ length groups)
      × Computes r 0 groups
unfolding evaluate_groups
evaluate_groups-Computes groups cosigners a =
    let blank = length-replicate (length groups) false in
    let (r, e, len, (same, _), computed) =
      groups_loop-Computes (length cosigners) 0 groups
        (record { cosigners = cosigners; groups = replicate (length groups) false }) refl
        (omega arith) a in
    (r, e, same, len ∙ blank, computed)
