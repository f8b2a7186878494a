-- ===== src/Cosign/Message.antt =====
-- `cosignedMessage` and the IDs in it, of demo/cosign.go.
use merkle_tree_certs.Prelude.{ℕ, [], ◌∷◌, ◌++◌, ◌==◌, not, ◌&&◌, ◌||◌, if◌then◌else◌, codes}
use merkle_tree_certs.Prelude.{Outcome, ok, err, panic, stuck, check, ◌>>◌}
use merkle_tree_certs.Log.Hash.{Bytes, HashValue}
use merkle_tree_certs.Log.Subtree.{is_valid_subtree}
use merkle_tree_certs.Config.Version.{DraftVersion, version_plants04, version_le}
use merkle_tree_certs.Config.AnchorId.{id_string}
use merkle_tree_certs.Cryptobyte.{Cryptobyte, Build, BuildError, ◌+++◌, around}

-- The errors of making and of checking a signature.
pub data CosignError : Type 0 where
  timestamp_on_subtree timestamp_too_early bad_subtree : CosignError
  not_built : BuildError → CosignError
  sign_failed bad_signature : CosignError

-- `b.Bytes()`
abbrev pub built : Build → Outcome CosignError Bytes
built (ok bs) = ok bs
built (err e) = err (CosignError.not_built e)
built panic = panic
built stuck = stuck

unfoldable pub tlog_origin : Bytes → Bytes
tlog_origin id = codes "oid/1.3.6.1.4.1." ++ id_string id

module _ (cb : Cryptobyte) where
  abbrev pub add_trust_anchor_id : Bytes → Build
  add_trust_anchor_id id = around cb.add_uint8_prefixed (ok id)

  -- What stands before the subtree, from draft plants-04 on and before.
  unfoldable pub named_header : Bytes → Bytes → ℕ → Build
  named_header cosigner_id log_id timestamp =
      ok (codes "subtree/v1" ++ (10 ∷ 0 ∷ []))
      +++ (around cb.add_uint8_prefixed (ok (tlog_origin cosigner_id))
          +++ (ok (cb.add_uint64 timestamp)
              +++ around cb.add_uint8_prefixed (ok (tlog_origin log_id))))

  unfoldable pub raw_header : Bytes → Bytes → Build
  raw_header cosigner_id log_id =
      ok (codes "mtc-subtree/v1" ++ (10 ∷ 0 ∷ []))
      +++ (add_trust_anchor_id cosigner_id +++ add_trust_anchor_id log_id)

  unfoldable pub cosigned_message :
      DraftVersion → Bytes → Bytes → ℕ → ℕ → ℕ → HashValue → Outcome CosignError Bytes
  cosigned_message version cosigner_id log_id timestamp start end hash = do
    check (not (not (timestamp == 0) && not (start == 0))) CosignError.timestamp_on_subtree
    check (version_le version_plants04 version || timestamp == 0) CosignError.timestamp_too_early
    check (is_valid_subtree start end) CosignError.bad_subtree
    let header =
        (if version_le version_plants04 version
          then named_header cosigner_id log_id timestamp
          else raw_header cosigner_id log_id)
    built (header +++ (ok (cb.add_uint64 start) +++ (ok (cb.add_uint64 end) +++ ok hash)))
