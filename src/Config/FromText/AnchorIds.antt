-- ===== src/Config/FromText/AnchorIds.antt =====
-- The text of a trust anchor ID of demo/config.go is read back as the ID.
use mathlib.Core.List.{append_assoc, append-nil}
use merkle_tree_certs.Prelude.{ℕ, zero, suc, ◌<◌, ◌≤◌, ◌≡◌, ◌≢◌, refl, sym, ap, ◌∙◌, arith}
use merkle_tree_certs.Prelude.{
  List, [], ◌∷◌, ◌++◌, length, length-append, All, some, ok, ◌==◌, true, false,
}
use merkle_tree_certs.Log.Hash.{Bytes}
use merkle_tree_certs.Config.Base128.{parse_base128, append_base128}
use merkle_tree_certs.Config.AnchorId.{
  append_parts, format_decimal, string_loop, or_invalid, id_string,
}
use merkle_tree_certs.Config.AnchorId.Laws.{
  AreWords, parse-append_parts, parts_shorter, not_empty, length_some,
}
use merkle_tree_certs.Config.FromText.{split, add_to_first, append_texts, id_from_string}
use merkle_tree_certs.Config.FromText.Decimal.{
  IsDigit, first-IsDigit, format_decimal-IsDigit, format_decimal-nonempty,
  parse_uint-format_decimal,
}

-- The bytes of one or more uint32 components.
abbrev pub IsId : Bytes → Type 0
IsId t = (v : ℕ) × (vs : List ℕ) × AreWords (v ∷ vs) × (t ≡ append_parts [] (v ∷ vs))

-- The components after the first one, each behind a dot, and the texts of all.
abbrev dotted : List ℕ → Bytes
dotted [] = []
dotted (v ∷ vs) = 46 ∷ (format_decimal 10 v ++ dotted vs)

abbrev texts : List ℕ → List Bytes
texts [] = []
texts (v ∷ vs) = format_decimal 10 v ∷ texts vs

string_loop_done : (fuel : ℕ) (s : Bytes) → string_loop fuel [] s ≡ some s
unfolding string_loop
string_loop_done zero s = refl
string_loop_done (suc fuel) s = refl

string_loop_next :
    (fuel v : ℕ) (bs rest s : Bytes)
    → bs ≢ []
    → parse_base128 bs ≡ record { ret = v; rest = rest; ok = true }
    → 0 < length s
    → string_loop (suc fuel) bs s ≡ string_loop fuel rest (s ++ (46 ∷ format_decimal 10 v))
unfolding string_loop
string_loop_next fuel v [] rest s full e h = absurd (full refl)
string_loop_next fuel v (b ∷ bs) rest s full e h =
    let behind : (length s == 0) ≡ false = ground arith in
    rw (e, behind) (ap (string_loop fuel rest) (append_assoc s (46 ∷ []) (format_decimal 10 v)))

string_loop_first :
    (fuel v : ℕ) (bs rest : Bytes)
    → bs ≢ []
    → parse_base128 bs ≡ record { ret = v; rest = rest; ok = true }
    → string_loop (suc fuel) bs [] ≡ string_loop fuel rest (format_decimal 10 v)
unfolding string_loop
string_loop_first fuel v [] rest full e = absurd (full refl)
string_loop_first fuel v (b ∷ bs) rest full e = rw e refl

string_loop-append_parts :
    (fuel : ℕ) (vs : List ℕ) (s : Bytes)
    → AreWords vs
    → length (append_parts [] vs) ≤ fuel
    → 0 < length s
    → string_loop fuel (append_parts [] vs) s ≡ some (s ++ dotted vs)
unfolding append_parts
string_loop-append_parts fuel [] s a h some_s =
    string_loop_done fuel s ∙ ap some (sym (append-nil s))
string_loop-append_parts zero (v ∷ vs) s (hv, a) h some_s =
    absurd (omega (arith, length_some _ (not_empty v vs hv)))
string_loop-append_parts (suc fuel) (v ∷ vs) s (hv, a) h some_s =
    let next = s ++ (46 ∷ format_decimal 10 v) in
    string_loop_next fuel v _ (append_parts [] vs) s (not_empty v vs hv)
      (parse-append_parts v vs hv) some_s
    ∙ string_loop-append_parts fuel vs next a (omega (arith, parts_shorter v vs hv))
        (omega (arith, length-append s (46 ∷ format_decimal 10 v)))
    ∙ ap some (append_assoc s (46 ∷ format_decimal 10 v) (dotted vs))

string_loop_whole :
    (fuel v : ℕ) (vs : List ℕ)
    → AreWords (v ∷ vs)
    → 0 < fuel
    → length (append_parts [] (v ∷ vs)) ≤ fuel
    → string_loop fuel (append_parts [] (v ∷ vs)) [] ≡ some (format_decimal 10 v ++ dotted vs)
string_loop_whole zero v vs (hv, a) enough h = absurd (omega arith)
string_loop_whole (suc fuel) v vs (hv, a) enough h =
    string_loop_first fuel v (append_parts [] (v ∷ vs)) (append_parts [] vs) (not_empty v vs hv)
      (parse-append_parts v vs hv)
    ∙ string_loop-append_parts fuel vs (format_decimal 10 v) a
        (omega (arith, parts_shorter v vs hv)) (format_decimal-nonempty 9 v)

id_string-append_parts :
    (v : ℕ) (vs : List ℕ)
    → AreWords (v ∷ vs)
    → id_string (append_parts [] (v ∷ vs)) ≡ format_decimal 10 v ++ dotted vs
unfolding id_string
id_string-append_parts v vs (hv, a) =
    let t = append_parts [] (v ∷ vs) in
    let some_t = length_some t (not_empty v vs hv) in
    let full : (length t == 0) ≡ false = ground arith in
    rw full (ap (or_invalid t) (string_loop_whole (length t) v vs (hv, a) some_t (omega arith)))

-- The text of an ID starts with a digit.
pub id_string-IsDigit :
    (id : Bytes) → IsId id → (d : ℕ) × (rest : Bytes) × (id_string id ≡ d ∷ rest) × IsDigit d
id_string-IsDigit id (v, vs, a, e) =
    let (d, rest, same, digit) =
      first-IsDigit (format_decimal 10 v) (format_decimal-nonempty 9 v)
        (format_decimal-IsDigit 10 v) in
    (
      d,
      rest ++ dotted vs,
      ap id_string e ∙ id_string-append_parts v vs a ∙ ap (λ t. t ++ dotted vs) same,
      digit,
    )

split_field :
    (xs t : Bytes) (ps : List Bytes)
    → All IsDigit xs
    → split 46 t ≡ [] ∷ ps
    → split 46 (xs ++ t) ≡ xs ∷ ps
split_field [] t ps a e = e
split_field (x ∷ xs) t ps ((lo, hi), a) e =
    let other : (x == 46) ≡ false = ground arith in
    rw other (ap (add_to_first x) (split_field xs t ps a e))

split-dotted : (vs : List ℕ) → split 46 (dotted vs) ≡ [] ∷ texts vs
split-dotted [] = refl
split-dotted (v ∷ vs) =
    ap (λ ps. [] ∷ ps)
      (split_field (format_decimal 10 v) (dotted vs) (texts vs) (format_decimal-IsDigit 10 v)
        (split-dotted vs))

append_texts-texts :
    (vs : List ℕ) (t : Bytes) → AreWords vs → append_texts t (texts vs) ≡ ok (append_parts t vs)
unfolding append_texts append_parts
append_texts-texts [] t a = refl
append_texts-texts (v ∷ vs) t (hv, a) =
    rw (parse_uint-format_decimal 32 9 v (omega arith) hv)
      (append_texts-texts vs (append_base128 t v) a)

-- The text of an ID of one or more uint32 components is read back as the ID.
pub id_from_string-id_string : (id : Bytes) → IsId id → id_from_string (id_string id) ≡ ok id
unfolding id_from_string
id_from_string-id_string id (v, vs, (hv, a), e) =
    let t = append_parts [] (v ∷ vs) in
    let parts : split 46 (format_decimal 10 v ++ dotted vs) ≡ texts (v ∷ vs) =
      split_field (format_decimal 10 v) (dotted vs) (texts vs) (format_decimal-IsDigit 10 v)
        (split-dotted vs) in
    let full : (length t == 0) ≡ false =
      let h = length_some t (not_empty v vs hv) in ground arith in
    rw (e, id_string-append_parts v vs (hv, a), parts, append_texts-texts (v ∷ vs) [] (hv, a), full)
      refl

-- Different IDs have different texts.
pub id_string-injective :
    (id id' : Bytes) → IsId id → IsId id' → id_string id ≡ id_string id' → id ≡ id'
id_string-injective id id' a b e =
    let both : ok id ≡ ok id' =
      sym (id_from_string-id_string id a) ∙ ap id_from_string e ∙ id_from_string-id_string id' b in
    cc
