-- ===== src/Policy/Evaluate.antt =====
-- `PolicyResult`, `Satisfied` and `EvaluateGroups` of demo/policy.go.
use merkle_tree_certs.Prelude.{ℕ, ◌+◌, Bool, true, false, leb, if◌then◌else◌}
use merkle_tree_certs.Prelude.{List, [], ◌∷◌, length, get_elem?, set, replicate}
use merkle_tree_certs.Prelude.{Outcome, ok, ◌>>=◌, must}
use merkle_tree_certs.Cosign.{PolicyError}
use merkle_tree_certs.Prelude.{ℤ}
use merkle_tree_certs.Policy.{PolicyIndex, PolicyGroup}

pub record PolicyResult : Type 0 where
  pub cosigners : List Bool
  pub groups : List Bool

-- Indexing a slice out of range panics.
abbrev pub satisfied : PolicyResult → PolicyIndex → Outcome PolicyError Bool
satisfied r idx = must (get_elem? (if idx.is_group then r.groups else r.cosigners) idx.index)

unfoldable pub count_members : PolicyResult → List PolicyIndex → ℕ → Outcome PolicyError ℕ
count_members r [] count = ok count
count_members r (m ∷ ms) count = do
  holds ← satisfied r m
  count_members r ms (if holds then count + 1 else count)

-- `count >= g.Number`
abbrev pub reaches : ℕ → ℤ → Bool
reaches count (ℤ.pos n) = leb n count
reaches count (ℤ.negsuc n) = true

-- `for i, g := range p.Groups`, from group `i` on.
unfoldable pub groups_loop : ℕ → List PolicyGroup → PolicyResult → Outcome PolicyError PolicyResult
groups_loop i [] ret = ok ret
groups_loop i (g ∷ gs) ret = do
  count ← count_members ret g.members 0
  groups_loop (i + 1) gs
      (record { cosigners = ret.cosigners; groups = set ret.groups i (reaches count g.num) })

unfoldable pub evaluate_groups : List PolicyGroup → List Bool → Outcome PolicyError PolicyResult
evaluate_groups groups cosigners =
    groups_loop 0 groups
      (record { cosigners = cosigners; groups = replicate (length groups) false })
