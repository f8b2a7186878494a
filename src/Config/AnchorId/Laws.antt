-- ===== src/Config/AnchorId/Laws.antt =====
-- Trust anchor IDs, patterns and log IDs made of components in base 128.
use mathlib.Core.List.{append_assoc, append-nil}
use mathlib.Core.Path.{ap₂}
use merkle_tree_certs.Prelude.{ℕ, zero, suc, ◌^◌, ◌≤◌, ◌<◌, ◌≢◌, ◌≡◌, refl, sym, ap, ◌∙◌, arith}
use merkle_tree_certs.Prelude.{true, List, [], ◌∷◌, ◌++◌, length, length-append, All, ok}
use merkle_tree_certs.Prelude.{le→ltb}
use merkle_tree_certs.Log.Hash.{Bytes}
use merkle_tree_certs.Config.Version.{DraftVersion, version_plants04, number}
use merkle_tree_certs.Config.Base128.{parse_base128, append_base128}
use merkle_tree_certs.Config.Base128.RoundTrip.{parse_base128-append_base128, append_base128_dst}
use merkle_tree_certs.Config.AnchorId.{
  append_parts, append_pattern_range, pattern_loop, id_to_pattern, log_id,
}

-- The components of an ID are uint32 values.
abbrev pub AreWords : List ℕ → Type 0
AreWords vs = All (λ v. v < 2 ^ 32) vs

append_parts_dst : (vs : List ℕ) (t : Bytes) → append_parts t vs ≡ t ++ append_parts [] vs
unfolding append_parts
append_parts_dst [] t = sym (append-nil t)
append_parts_dst (v ∷ vs) t =
    append_parts_dst vs (append_base128 t v)
    ∙ ap (λ u. u ++ append_parts [] vs) (append_base128_dst t v)
    ∙ append_assoc t (append_base128 [] v) (append_parts [] vs)
    ∙ ap (λ u. t ++ u) (sym (append_parts_dst vs (append_base128 [] v)))

append_parts_first :
    (v : ℕ) (vs : List ℕ) → append_parts [] (v ∷ vs) ≡ append_base128 [] v ++ append_parts [] vs
unfolding append_parts
append_parts_first v vs = append_parts_dst vs (append_base128 [] v)

-- The first component and the rest are read back.
pub parse-append_parts :
    (v : ℕ) (vs : List ℕ)
    → v < 2 ^ 32
    → parse_base128 (append_parts [] (v ∷ vs))
      ≡ record { ret = v; rest = append_parts [] vs; ok = true }
parse-append_parts v vs h =
    ap parse_base128 (append_parts_first v vs)
    ∙ parse_base128-append_base128 v (append_parts [] vs) h

pub not_empty : (v : ℕ) (vs : List ℕ) → v < 2 ^ 32 → append_parts [] (v ∷ vs) ≢ []
unfolding parse_base128
not_empty v vs h e =
    cc (ap (λ t. (parse_base128 t).ok) e, ap (λ p. p.ok) (parse-append_parts v vs h))

no_parts : append_parts [] [] ≡ []
unfolding append_parts
no_parts = refl

-- Different lists of uint32 components have different IDs.
pub append_parts-injective :
    (vs ws : List ℕ) → AreWords vs → AreWords ws → append_parts [] vs ≡ append_parts [] ws → vs ≡ ws
append_parts-injective [] [] av aw e = refl
append_parts-injective [] (w ∷ ws) av (hw, aw) e = absurd (not_empty w ws hw (sym e ∙ no_parts))
append_parts-injective (v ∷ vs) [] (hv, av) aw e = absurd (not_empty v vs hv (e ∙ no_parts))
append_parts-injective (v ∷ vs) (w ∷ ws) (hv, av) (hw, aw) e =
    let parsed =
      sym (parse-append_parts v vs hv) ∙ ap parse_base128 e ∙ parse-append_parts w ws hw in
    ap₂ (λ x xs. x ∷ xs) (ap (λ p. p.ret) parsed)
      (append_parts-injective vs ws av aw (ap (λ p. p.rest) parsed))

same_suffix :
    (vs ws : List ℕ) (n m : ℕ) → vs ++ (0 ∷ n ∷ []) ≡ ws ++ (0 ∷ m ∷ []) → (vs ≡ ws) × (n ≡ m)
same_suffix [] [] n m e = (refl, cc)
same_suffix [] (w ∷ ws) n m e = absurd (omega (arith, ap length e, length-append ws (0 ∷ m ∷ [])))
same_suffix (v ∷ vs) [] n m e = absurd (omega (arith, ap length e, length-append vs (0 ∷ n ∷ [])))
same_suffix (v ∷ vs) (w ∷ ws) n m e = let (t, k) = same_suffix vs ws n m cc in (cc, k)

AreWords-suffix : (vs : List ℕ) (n : ℕ) → AreWords vs → n < 2 ^ 16 → AreWords (vs ++ (0 ∷ n ∷ []))
AreWords-suffix [] n a h = (omega arith, (omega arith, tt))
AreWords-suffix (v ∷ vs) n (hv, a) h = (hv, AreWords-suffix vs n a h)

append_parts-suffix :
    (vs : List ℕ) (n : ℕ) (t : Bytes)
    → append_base128 (append_base128 (append_parts t vs) 0) n ≡ append_parts t (vs ++ (0 ∷ n ∷ []))
unfolding append_parts
append_parts-suffix [] n t = refl
append_parts-suffix (v ∷ vs) n t = append_parts-suffix vs n (append_base128 t v)

log_id_lem :
    (version : DraftVersion) (vs : List ℕ) (n : ℕ)
    → 4 ≤ number version
    → log_id version (append_parts [] vs) n ≡ append_parts [] (vs ++ (0 ∷ n ∷ []))
unfolding log_id
log_id_lem version vs n late = rw (le→ltb (number version) 4 late) (append_parts-suffix vs n [])

-- From draft version plants-04 on, for CA IDs of uint32 components and uint16 log numbers, `LogID`
-- gives different IDs to the logs of different CAs and to different logs of one CA.
pub log_id-injective :
    (version : DraftVersion) (vs ws : List ℕ) (n m : ℕ)
    → number version_plants04 ≤ number version
    → AreWords vs
    → AreWords ws
    → n < 2 ^ 16
    → m < 2 ^ 16
    → log_id version (append_parts [] vs) n ≡ log_id version (append_parts [] ws) m
    → (vs ≡ ws) × (n ≡ m)
log_id-injective version vs ws n m late av aw hn hm e = same_suffix vs ws n m (
    append_parts-injective (vs ++ (0 ∷ n ∷ [])) (ws ++ (0 ∷ m ∷ [])) (AreWords-suffix vs n av hn)
      (AreWords-suffix ws m aw hm)
      (sym (log_id_lem version vs n late) ∙ e ∙ log_id_lem version ws m late))

-- Every component twice, as the ends of a range of one value.
abbrev pub twice : List ℕ → List ℕ
twice [] = []
twice (v ∷ vs) = v ∷ v ∷ twice vs

pattern_loop_next {ℓ} :
    {E : Type ℓ} (fuel v : ℕ) (bs rest pattern : Bytes)
    → bs ≢ []
    → parse_base128 bs ≡ record { ret = v; rest = rest; ok = true }
    → pattern_loop {E = E} (suc fuel) bs pattern
      ≡ pattern_loop {E = E} fuel rest (append_pattern_range pattern v v)
unfolding pattern_loop
pattern_loop_next fuel v [] rest pattern some e = absurd (some refl)
pattern_loop_next fuel v (b ∷ bs) rest pattern some e = rw e refl

pub length_some : (bs : Bytes) → bs ≢ [] → 0 < length bs
length_some [] h = absurd (h refl)
length_some (b ∷ bs) h = omega arith

one_some : (v : ℕ) → v < 2 ^ 32 → append_base128 [] v ≢ []
unfolding append_parts
one_some v hv e = not_empty v [] hv e

pub parts_shorter :
    (v : ℕ) (vs : List ℕ)
    → v < 2 ^ 32
    → length (append_parts [] vs) < length (append_parts [] (v ∷ vs))
parts_shorter v vs hv = omega (
  arith,
  ap length (append_parts_first v vs),
  length-append (append_base128 [] v) (append_parts [] vs),
  length_some (append_base128 [] v) (one_some v hv),
)

pattern_loop_done {ℓ} :
    {E : Type ℓ} (fuel : ℕ) (pattern : Bytes) → pattern_loop {E = E} fuel [] pattern ≡ ok pattern
unfolding pattern_loop
pattern_loop_done zero pattern = refl
pattern_loop_done (suc fuel) pattern = refl

pattern_loop-append_parts {ℓ} :
    {E : Type ℓ} (fuel : ℕ) (vs : List ℕ) (pattern : Bytes)
    → AreWords vs
    → length (append_parts [] vs) ≤ fuel
    → pattern_loop {E = E} fuel (append_parts [] vs) pattern ≡ ok (append_parts pattern (twice vs))
unfolding append_parts append_pattern_range
pattern_loop-append_parts zero [] pattern a h = pattern_loop_done 0 pattern
pattern_loop-append_parts (suc fuel) [] pattern a h = pattern_loop_done (suc fuel) pattern
pattern_loop-append_parts zero (v ∷ vs) pattern (hv, a) h =
    absurd (omega (arith, length_some _ (not_empty v vs hv)))
pattern_loop-append_parts (suc fuel) (v ∷ vs) pattern (hv, a) h =
    pattern_loop_next fuel v _ (append_parts [] vs) pattern (not_empty v vs hv)
      (parse-append_parts v vs hv)
    ∙ pattern_loop-append_parts fuel vs _ a (omega (arith, parts_shorter v vs hv))

-- `TrustAnchorIDToPattern` takes the ID of any uint32 components to the pattern that has, for each of
-- them, the range from it to itself, and does not panic.
pub id_to_pattern-append_parts {ℓ} :
    {E : Type ℓ} (vs : List ℕ)
    → AreWords vs
    → id_to_pattern {E = E} (append_parts [] vs) ≡ ok (append_parts [] (twice vs))
unfolding id_to_pattern
id_to_pattern-append_parts vs a =
    pattern_loop-append_parts (length (append_parts [] vs)) vs [] a (omega arith)
