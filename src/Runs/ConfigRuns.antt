-- ===== src/Runs/ConfigRuns.antt =====
-- Runs of the base-128 code and of IDs in demo/config.go and demo/encode.go, and the theorems on
-- them at concrete inputs.
use merkle_tree_certs.Prelude.{ℕ, ◌≡◌, refl, arith, List, [], ◌∷◌, ◌++◌, ok, true, false}
use merkle_tree_certs.Config.Version.{version_plants07}
use merkle_tree_certs.Config.Base128.{
  parse_loop, parse_base128, count_bytes, base128_length, append_loop, append_base128,
}
use merkle_tree_certs.Config.Base128.RoundTrip.{parse_base128-append_base128}
use merkle_tree_certs.Config.AnchorId.{
  append_parts, format_decimal, string_loop, id_string, id_to_pattern, log_id,
}
use merkle_tree_certs.Config.AnchorId.Laws.{
  AreWords, append_parts-injective, log_id-injective, id_to_pattern-append_parts,
}
use merkle_tree_certs.Log.Subtree.{LogError}

append_run : append_base128 (1 ∷ []) 32473 ≡ 1 ∷ 129 ∷ 253 ∷ 89 ∷ []
unfolding append_base128 append_loop base128_length count_bytes
append_run = refl

not_minimal_run : (parse_base128 (128 ∷ 1 ∷ [])).ok ≡ false
unfolding parse_base128 parse_loop
not_minimal_run = refl

overflow_run : (parse_base128 (144 ∷ 128 ∷ 128 ∷ 128 ∷ 0 ∷ [])).ok ≡ false
unfolding parse_base128 parse_loop
overflow_run = refl

-- 32473.1
string_run : id_string (129 ∷ 253 ∷ 89 ∷ 1 ∷ []) ≡ 51 ∷ 50 ∷ 52 ∷ 55 ∷ 51 ∷ 46 ∷ 49 ∷ []
unfolding id_string string_loop format_decimal parse_base128 parse_loop
string_run = refl

log_id_run : log_id version_plants07 (129 ∷ 253 ∷ 89 ∷ []) 5 ≡ 129 ∷ 253 ∷ 89 ∷ 0 ∷ 5 ∷ []
unfolding log_id append_base128 append_loop base128_length count_bytes
log_id_run = refl

parse_base128-append_base128_example :
    parse_base128 (append_base128 [] 32473 ++ (7 ∷ []))
    ≡ record { ret = 32473; rest = 7 ∷ []; ok = true }
parse_base128-append_base128_example = parse_base128-append_base128 32473 (7 ∷ []) (omega arith)

abbrev parts : List ℕ
parts = 32473 ∷ 1 ∷ []

words : AreWords parts
words = (omega arith, (omega arith, tt))

append_parts-injective_example : parts ≡ parts
append_parts-injective_example = append_parts-injective parts parts words words refl

log_id-injective_example : (parts ≡ parts) × ◌≡◌ {A = ℕ} 5 5
log_id-injective_example =
    log_id-injective version_plants07 parts parts 5 5 (omega arith) words words (omega arith)
      (omega arith) refl

id_to_pattern-append_parts_example :
    id_to_pattern {E = LogError} (append_parts [] parts)
    ≡ ok (append_parts [] (32473 ∷ 32473 ∷ 1 ∷ 1 ∷ []))
id_to_pattern-append_parts_example = id_to_pattern-append_parts parts words
