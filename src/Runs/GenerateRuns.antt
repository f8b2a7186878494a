-- ===== src/Runs/GenerateRuns.antt =====
-- A certificate that waits for a checkpoint, as in demo/generate.go.
use merkle_tree_certs.Prelude.{ℕ, ◌≡◌, ◌≤◌, ◌<◌, refl, arith, [], ◌∷◌, ok, true}
use merkle_tree_certs.Log.Subtree.Valid.{IsSubtree}
use merkle_tree_certs.Config.Base128.{
  parse_loop, parse_base128, append_base128, append_loop, base128_length, count_bytes,
}
use merkle_tree_certs.Config.AnchorId.{append_pattern_range, pattern_loop, id_to_pattern}
use merkle_tree_certs.Config.FromText.{append_pattern_range_with_infinity}
use merkle_tree_certs.Generate.{
  choose_subtree, landmark_properties, default_properties, choose_subtree-IsSubtree,
}

-- The landmark 3 of the log 1 of the CA 9.
landmark_run :
    default_properties (9 ∷ []) 1 3
    ≡ ok (record {
      trust_anchor_id = 9 ∷ 1 ∷ 1 ∷ 3 ∷ [];
      trust_anchor_groups = (9 ∷ 9 ∷ 2 ∷ 2 ∷ 1 ∷ 1 ∷ 3 ∷ 128 ∷ []) ∷ [];
      trust_anchor_negotiation = true;
    })
unfolding default_properties landmark_properties id_to_pattern pattern_loop append_pattern_range
    append_pattern_range_with_infinity append_base128 append_loop base128_length count_bytes
    parse_base128 parse_loop
landmark_run = refl

choose_subtree-IsSubtree_example :
    (start : ℕ) × (end : ℕ) × (choose_subtree 5 13 10 ≡ ok (start, end))
    × IsSubtree start end
    × (start ≤ 10)
    × (10 < end)
    × (end ≤ 13)
choose_subtree-IsSubtree_example =
    choose_subtree-IsSubtree 5 13 10 (omega arith) (omega arith) (omega arith)
