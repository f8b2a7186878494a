-- ===== src/Policy/Fixpoint.antt =====
-- What `EvaluateGroups` of demo/policy.go decides: a group holds where enough of its members do.
use merkle_tree_certs.Prelude.{
  ℕ, ℤ, ◌+◌, ◌≤◌, ◌≡◌, refl, arith, Bool, true, false, if◌then◌else◌, Bool-cases, inl, inr,
}
use merkle_tree_certs.Prelude.{
  List, [], ◌∷◌, length, get_elem?, some, ok, must, >>=-eq-ok, ok_subst,
}
use merkle_tree_certs.Policy.{PolicyIndex, PolicyGroup}
use merkle_tree_certs.Policy.Evaluate.{
  PolicyResult, satisfied, count_members, reaches, evaluate_groups,
}
use merkle_tree_certs.Policy.Computed.{AreGroups, Computes, must-ok, evaluate_groups-Computes}

-- A member's entry in a result: of its group, or of its cosigner.
pub data Entry (r : PolicyResult) : PolicyIndex → Bool → Type 0 where
  of_group :
      {m : PolicyIndex} {b : Bool}
      → m.is_group ≡ true
      → get_elem? r.groups m.index ≡ some b
      → Entry r m b
  of_cosigner :
      {m : PolicyIndex} {b : Bool}
      → m.is_group ≡ false
      → get_elem? r.cosigners m.index ≡ some b
      → Entry r m b

-- So many of the members have the entry true, and the others have the entry false.
pub data Holding (r : PolicyResult) : List PolicyIndex → ℕ → Type 0 where
  nobody : Holding r [] 0
  with_holder :
      {m : PolicyIndex} {ms : List PolicyIndex} {n : ℕ}
      → Entry r m true
      → Holding r ms n
      → Holding r (m ∷ ms) (n + 1)
  with_other :
      {m : PolicyIndex} {ms : List PolicyIndex} {n : ℕ}
      → Entry r m false
      → Holding r ms n
      → Holding r (m ∷ ms) n

-- A group's number as an integer is at most a count.
abbrev pub AtMost : ℤ → ℕ → Type 0
AtMost (ℤ.pos k) n = k ≤ n
AtMost (ℤ.negsuc k) n = Unit {0}

-- From group `i` on, a group's entry is true exactly where as many of its members hold as its
-- number asks.
abbrev pub Solves : PolicyResult → ℕ → List PolicyGroup → Type 0
Solves r i [] = Unit {0}
Solves r i (g ∷ gs) =
    ((n : ℕ) × (b : Bool) × Holding r g.members n
      × (get_elem? r.groups i ≡ some b)
      × ((b ≡ true → AtMost g.num n) × (AtMost g.num n → b ≡ true)))
    × Solves r (i + 1) gs

satisfied-Entry :
    (r : PolicyResult) (m : PolicyIndex) (b : Bool) → satisfied r m ≡ ok b → Entry r m b
satisfied-Entry r m b e = elim (Bool-cases m.is_group) [
  | inl g ↦
      let e' : must (get_elem? r.groups m.index) ≡ ok b = rw g at e in
      Entry.of_group g (must-ok _ b e')
  | inr g ↦
      let e' : must (get_elem? r.cosigners m.index) ≡ ok b = rw g at e in
      Entry.of_cosigner g (must-ok _ b e')
]

Holding-next :
    (r : PolicyResult) (m : PolicyIndex) (ms : List PolicyIndex) (b : Bool) (start count : ℕ)
    → Entry r m b
    → (n : ℕ) × Holding r ms n × ((if b then start + 1 else start) + n ≡ count)
    → (n : ℕ) × Holding r (m ∷ ms) n × (start + n ≡ count)
Holding-next r m ms true start count h (n, rest, e) =
    (n + 1, Holding.with_holder h rest, omega arith)
Holding-next r m ms false start count h (n, rest, e) = (n, Holding.with_other h rest, e)

count_members-Holding :
    (r : PolicyResult) (ms : List PolicyIndex) (start count : ℕ)
    → count_members r ms start ≡ ok count
    → (n : ℕ) × Holding r ms n × (start + n ≡ count)
unfolding count_members
count_members-Holding r [] start count e =
    (0, Holding.nobody, ok_subst (λ t. start + 0 ≡ t) e (omega arith))
count_members-Holding r (m ∷ ms) start count e =
    let (b, eb, rest) = >>=-eq-ok (satisfied r m) _ e in
    Holding-next r m ms b start count (satisfied-Entry r m b eb)
      (count_members-Holding r ms (if b then start + 1 else start) count rest)

reaches_iff :
    (count : ℕ) (num : ℤ)
    → (reaches count num ≡ true → AtMost num count) × (AtMost num count → reaches count num ≡ true)
reaches_iff count (ℤ.pos k) = (λ e. ground arith, λ h. ground arith)
reaches_iff count (ℤ.negsuc k) = (λ e. tt, λ h. refl)

Computes-Solves :
    (r : PolicyResult) (i : ℕ) (gs : List PolicyGroup) → Computes r i gs → Solves r i gs
Computes-Solves r i [] tt = tt
Computes-Solves r i (g ∷ gs) ((count, e, entry), rest) =
    let (n, holding, same) = count_members-Holding r g.members 0 count e in
    let same' : n ≡ count = omega arith in
    let (there, back) = reaches_iff count g.num in
    (
      (
        n,
        reaches count g.num,
        holding,
        entry,
        (λ t. rw same' (there t), λ h. back (rw same' at h)),
      ),
      Computes-Solves r (i + 1) gs rest,
    )

-- Where every member of a group is a cosigner or an earlier group, `EvaluateGroups` returns without
-- an index out of range. The result keeps the cosigners and has one entry for each group, which is
-- true exactly where the number of its members whose entries in that same result are true is at
-- least the group's number.
pub evaluate_groups-Solves :
    (groups : List PolicyGroup) (cosigners : List Bool)
    → AreGroups (length cosigners) 0 groups
    → (r : PolicyResult) × (evaluate_groups groups cosigners ≡ ok r)
      × (r.cosigners ≡ cosigners)
      × (length r.groups ≡ length groups)
      × Solves r 0 groups
evaluate_groups-Solves groups cosigners a =
    let (r, e, same, len, computed) = evaluate_groups-Computes groups cosigners a in
    (r, e, same, len, Computes-Solves r 0 groups computed)
