-- ===== src/Runs/ProofRuns.antt =====
-- Proofs and certificates made with a toy byte library and a toy digest, and the theorems of
-- demo/encode.go and demo/verify_proof.go at them.
use mathlib.Core.List.{Perm}
use merkle_tree_certs.Prelude.{◌≡◌, refl, arith, List, [], ◌∷◌}
use merkle_tree_certs.Prelude.{ok, err, panic, stuck}
use merkle_tree_certs.Log.Hash.{Bytes}
use merkle_tree_certs.Config.Version.{version_plants07}
use merkle_tree_certs.Config.Structs.{Cosignature}
use merkle_tree_certs.Cryptobyte.{Build}
use merkle_tree_certs.Encode.{add_mtc_entry_extensions, add_mtc_proof_signatures}
use merkle_tree_certs.Encode.Certificate.{
  sort_cosignatures, add_cosignatures, add_coordinates, add_mtc_proof,
}
use merkle_tree_certs.Encode.Order.{AreOrdered, AreDistinct}
use merkle_tree_certs.Encode.Sorted.{ids, sort_cosignatures-AreOrdered}
use merkle_tree_certs.Proof.{ParsedEntryExtension, read_extensions, parse_signature}
use merkle_tree_certs.Proof.RoundTrip.{proof_of, parse_signature-add_mtc_proof}
use merkle_tree_certs.Runs.ToyBytes.{toy_bytes, toy_bytes-IsCryptobyte}
use merkle_tree_certs.Runs.ToyNumbers.{read_number}

abbrev pub three : List Cosignature
three =
    record { cosigner_id = 3 ∷ []; signature = 42 ∷ [] }
    ∷ record { cosigner_id = 1 ∷ []; signature = 42 ∷ [] }
    ∷ record { cosigner_id = 1 ∷ 1 ∷ []; signature = 43 ∷ [] }
    ∷ []

pub three_distinct : AreDistinct (ids three)
three_distinct = ((λ e. cc, (λ e. cc, tt)), ((λ e. cc, tt), (tt, tt)))

sort_cosignatures-AreOrdered_example :
    Perm (sort_cosignatures three) three × AreOrdered (ids (sort_cosignatures three))
sort_cosignatures-AreOrdered_example = sort_cosignatures-AreOrdered three three_distinct

abbrev pub bytes_of : Build → Bytes
bytes_of (ok bs) = bs
bytes_of (err e) = []
bytes_of panic = []
bytes_of stuck = []

-- The proof of a tree of one entry, with one extension, signed by the cosigner 1.
abbrev pub exts : Bytes
exts = 0 ∷ 7 ∷ 0 ∷ 1 ∷ 9 ∷ []

abbrev pub signed : List Cosignature
signed = record { cosigner_id = 1 ∷ []; signature = 42 ∷ [] } ∷ []

unfoldable pub body : Bytes
unfolding add_mtc_proof add_mtc_entry_extensions add_coordinates add_mtc_proof_signatures
    add_cosignatures
body = bytes_of (add_mtc_proof toy_bytes version_plants07 exts 0 1 [] signed)

body_lem : add_mtc_proof toy_bytes version_plants07 exts 0 1 [] signed ≡ ok body
unfolding body add_mtc_proof add_mtc_entry_extensions add_coordinates add_mtc_proof_signatures
    add_cosignatures
body_lem = refl

abbrev pub parsed_exts : List ParsedEntryExtension
parsed_exts = record { ext_type = 7; ext_value = 9 ∷ [] } ∷ []

pub exts_lem : read_extensions toy_bytes 5 0 exts ≡ ok parsed_exts
unfolding read_extensions read_number
exts_lem = refl

parse_signature-add_mtc_proof_example :
    parse_signature toy_bytes version_plants07 body ≡ ok (proof_of exts parsed_exts 0 1 [] signed)
parse_signature-add_mtc_proof_example =
    parse_signature-add_mtc_proof toy_bytes toy_bytes-IsCryptobyte version_plants07 exts 0 1 []
      signed parsed_exts body (λ e. cc) exts_lem (omega arith) (omega arith) (refl, tt) (tt, tt)
      body_lem
