-- ===== src/Config/AnchorId.antt =====
-- `TrustAnchorID` and `TrustAnchorIDPattern` of demo/config.go, and `LogID` of demo/encode.go. An
-- ID is the bytes of its components, each in base 128. The strings hold the bytes of their ASCII
-- characters. Text is read and written with strconv and fmt, whose decimal digits are written out
-- here.
pub mod Laws
use merkle_tree_certs.Prelude.{ℕ, zero, suc, ◌+◌, ◌-◌, ◌*◌, ◌/◌, ◌%◌, ◌^◌}
use merkle_tree_certs.Prelude.{Bool, true, false, ltb, ◌==◌, if◌then◌else◌, not}
use merkle_tree_certs.Prelude.{List, [], ◌∷◌, ◌++◌, length, drop, Option, none, some}
use merkle_tree_certs.Prelude.{Outcome, ok, panic, stuck}
use merkle_tree_certs.Log.Hash.{Bytes}
use merkle_tree_certs.Config.Version.{DraftVersion, version_plants04, version_lt}
use merkle_tree_certs.Config.Base128.{Parsed, parse_base128, append_base128}

-- `t = appendBase128(t, uint32(v))` for the parts of a string.
unfoldable pub append_parts : Bytes → List ℕ → Bytes
append_parts t [] = t
append_parts t (v ∷ vs) = append_parts (append_base128 t v) vs

-- `%d`, for at most ten digits.
unfoldable pub format_decimal : ℕ → ℕ → Bytes
format_decimal zero n = []
format_decimal (suc fuel) n =
    let front = format_decimal fuel (n / 10) in
    if ltb n 10 then (48 + n) ∷ [] else front ++ ((48 + n % 10) ∷ [])

-- `for len(rest) != 0`. A parsed component has a byte or more, so the length is fuel enough.
unfoldable pub string_loop : ℕ → Bytes → Bytes → Option Bytes
string_loop fuel [] s = some s
string_loop zero (b ∷ bs) s = none
string_loop (suc fuel) (b ∷ bs) s =
    let parsed = parse_base128 (b ∷ bs) in
    let dotted = (if length s == 0 then s else s ++ (46 ∷ [])) in
    let more = string_loop fuel parsed.rest (dotted ++ format_decimal 10 parsed.ret) in
    if parsed.ok then more else none

-- `%x` of the bytes.
abbrev hex_digit : ℕ → ℕ
hex_digit d = if ltb d 10 then 48 + d else 87 + d

abbrev hex : Bytes → Bytes
hex [] = []
hex (b ∷ bs) = hex_digit (b / 16) ∷ hex_digit (b % 16) ∷ hex bs

-- `<invalid: %x>`
abbrev invalid_string : Bytes → Bytes
invalid_string t = 60 ∷ 105 ∷ 110 ∷ 118 ∷ 97 ∷ 108 ∷ 105 ∷ 100 ∷ 58 ∷ 32 ∷ (hex t ++ (62 ∷ []))

abbrev pub or_invalid : Bytes → Option Bytes → Bytes
or_invalid t none = invalid_string t
or_invalid t (some s) = s

unfoldable pub id_string : Bytes → Bytes
id_string t = if length t == 0 then invalid_string t else or_invalid t (string_loop (length t) t [])

unfoldable pub append_pattern_range : Bytes → ℕ → ℕ → Bytes
append_pattern_range pattern min max = append_base128 (append_base128 pattern min) max

-- The loop of `TrustAnchorIDToPattern`.
unfoldable pub pattern_loop {ℓ} : {E : Type ℓ} → ℕ → Bytes → Bytes → Outcome E Bytes
pattern_loop fuel [] pattern = ok pattern
pattern_loop zero (b ∷ bs) pattern = stuck
pattern_loop (suc fuel) (b ∷ bs) pattern =
    let parsed = parse_base128 (b ∷ bs) in
    let more = pattern_loop fuel parsed.rest (append_pattern_range pattern parsed.ret parsed.ret) in
    if parsed.ok then more else panic

unfoldable pub id_to_pattern {ℓ} : {E : Type ℓ} → Bytes → Outcome E Bytes
id_to_pattern id = pattern_loop (length id) id []

-- The number of a log is a uint16.
unfoldable pub log_id : DraftVersion → Bytes → ℕ → Bytes
log_id version ca_id log_number =
    if version_lt version version_plants04
    then ca_id
    else append_base128 (append_base128 ca_id 0) log_number

-- `TrustAnchorIDPattern.String`: one range, and the loop over the ranges.
abbrev pub starts_infinity : Bytes → Bool
starts_infinity [] = false
starts_infinity (b ∷ bs) = b == 128

abbrev pub range_text : ℕ → ℕ → Bytes
range_text min max =
    if min == max
    then format_decimal 10 min
    else 123 ∷ (format_decimal 10 min ++ (45 ∷ (format_decimal 10 max ++ (125 ∷ []))))

abbrev pub pattern_range : Bytes → Option (Bytes × Bytes)
pattern_range t =
    let low = parse_base128 t in
    let high = parse_base128 low.rest in
    if not low.ok
    then none
    else if starts_infinity low.rest
    then some (123 ∷ (format_decimal 10 low.ret ++ (45 ∷ 125 ∷ [])), drop 1 low.rest)
    else if high.ok
    then some (range_text low.ret high.ret, high.rest)
    else none

abbrev pub with_range : Option (Bytes × Bytes) → (Bytes → Bytes → Option Bytes) → Option Bytes
with_range none next = none
with_range (some (text, rest)) next = next text rest

unfoldable pub pattern_string_loop : ℕ → Bytes → Bytes → Option Bytes
pattern_string_loop fuel [] s = some s
pattern_string_loop zero (b ∷ bs) s = none
pattern_string_loop (suc fuel) (b ∷ bs) s =
    let dotted = (if length s == 0 then s else s ++ (46 ∷ [])) in
    with_range (pattern_range (b ∷ bs))
      (λ text rest. pattern_string_loop fuel rest (dotted ++ text))

unfoldable pub id_pattern_string : Bytes → Bytes
id_pattern_string t =
    if length t == 0 then invalid_string t else or_invalid t (pattern_string_loop (length t) t [])
