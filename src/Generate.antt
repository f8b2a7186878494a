-- ===== src/Generate.antt =====
-- The decisions of demo/generate.go: which subtree a certificate takes when a checkpoint is made,
-- and the properties of a certificate without an override.
use merkle_tree_certs.Prelude.{
  ℕ, ◌%◌, ◌^◌, ◌<◌, ◌≤◌, [], ◌∷◌, ltb, true, false, if◌then◌else◌, ◌≡◌, refl, arith, Bool-cases,
  inl, inr,
}
use merkle_tree_certs.Prelude.{Outcome, ok, ◌>>=◌}
use merkle_tree_certs.Log.Hash.{Bytes}
use merkle_tree_certs.Log.Subtree.{LogError}
use merkle_tree_certs.Log.Subtree.Valid.{IsSubtree}
use merkle_tree_certs.Log.Interval.{subtrees_for_interval}
use merkle_tree_certs.Log.Interval.Covers.{subtrees_for_interval-IsCovering}
use merkle_tree_certs.Config.Base128.{append_base128}
use merkle_tree_certs.Config.AnchorId.{append_pattern_range, id_to_pattern}
use merkle_tree_certs.Config.FromText.{append_pattern_range_with_infinity}
use merkle_tree_certs.Config.Structs.{CertificatePropertyList}

-- The subtree of a certificate that waited since the checkpoint of size `prev`.
unfoldable pub choose_subtree : ℕ → ℕ → ℕ → Outcome LogError (ℕ × ℕ)
choose_subtree prev size index = do
  c ← subtrees_for_interval prev size
  ok (if ltb index c.end1 then (c.start1, c.end1) else (c.start2, c.end2))

-- The properties of a certificate that stands alone, and of one for a landmark.
unfoldable pub standalone_properties : Bytes → Outcome LogError CertificatePropertyList
standalone_properties id = do
  pattern ← id_to_pattern id
  let groups =
      append_pattern_range_with_infinity
        (append_pattern_range_with_infinity (append_pattern_range pattern 2 2) 0) 0
  ok (record {
    trust_anchor_id = id;
    trust_anchor_groups = groups ∷ [];
    trust_anchor_negotiation = false;
  })

unfoldable pub landmark_properties : Bytes → ℕ → ℕ → Outcome LogError CertificatePropertyList
landmark_properties id log_number landmark = do
  pattern ← id_to_pattern id
  let groups =
      append_pattern_range_with_infinity
        (append_pattern_range (append_pattern_range pattern 2 2) log_number log_number)
        (landmark % 2 ^ 32)
  ok (record {
    trust_anchor_id =
        append_base128 (append_base128 (append_base128 id 1) log_number) (landmark % 2 ^ 32);
    trust_anchor_groups = groups ∷ [];
    trust_anchor_negotiation = true;
  })

unfoldable pub default_properties : Bytes → ℕ → ℕ → Outcome LogError CertificatePropertyList
default_properties id log_number landmark =
    if ltb 0 landmark then landmark_properties id log_number landmark else standalone_properties id

-- For an entry that was added after the last checkpoint of a sequence and before the next, both of
-- 64 bits, a certificate that waits for the next one takes a valid subtree that includes the entry
-- and ends by that checkpoint.
pub choose_subtree-IsSubtree :
    (prev size index : ℕ)
    → prev ≤ index
    → index < size
    → size < 2 ^ 64
    → (start : ℕ) × (end : ℕ) × (choose_subtree prev size index ≡ ok (start, end))
      × IsSubtree start end
      × (start ≤ index)
      × (index < end)
      × (end ≤ size)
unfolding choose_subtree
choose_subtree-IsSubtree prev size index after before bound =
    let (c, e, covers) = subtrees_for_interval-IsCovering prev size (omega arith) bound in
    elim (Bool-cases (ltb index c.end1)) [
      | inl t ↦ (
        c.start1,
        c.end1,
        rw (e, t) refl,
        covers.left,
        omega (arith, covers.from),
        ground arith,
        omega (arith, covers.inside.1),
      )
      | inr f ↦ (
        c.start2,
        c.end2,
        rw (e, f) refl,
        covers.right,
        ground (arith, covers.adjacent),
        omega (arith, covers.to),
        omega (arith, covers.to),
      )
    ]
