-- ===== src/Config/FromText.antt =====
-- The functions of demo/config.go that read text, and `parseSerial` of demo/verify.go. What they
-- use of strings and strconv is written out; text is the bytes of its characters.
pub mod Decimal
pub mod AnchorIds
use merkle_tree_certs.Prelude.{
  ℕ, zero, suc, ℤ, ◌+◌, ◌-◌, ◌*◌, ◌^◌, ◌%◌, bit_or, List, [], ◌∷◌, ◌++◌, length, take, drop, get_or,
  ltb, leb, ◌==◌, Bool, false, not, ◌&&◌, ◌||◌, if◌then◌else◌, Option, none, some, bytes_eq, codes,
}
use merkle_tree_certs.Prelude.{Outcome, ok, err, check, found, ◌>>=◌, ◌>>◌}
use merkle_tree_certs.Log.Hash.{Bytes}
use merkle_tree_certs.Config.AnchorId.{append_pattern_range}
use merkle_tree_certs.Config.Base128.{append_base128}
use merkle_tree_certs.Cryptobyte.{Oid}

pub data TextError : Type 0 where
  bad_number bad_id bad_pattern bad_oid bad_serial unknown_usage : TextError

-- `strings.Split(s, sep)`, for a separator of one byte.
abbrev pub add_to_first : ℕ → List Bytes → List Bytes
add_to_first b [] = (b ∷ []) ∷ []
add_to_first b (p ∷ ps) = (b ∷ p) ∷ ps

abbrev pub split : ℕ → Bytes → List Bytes
split sep [] = [] ∷ []
split sep (b ∷ bs) =
    let parts = split sep bs in if b == sep then [] ∷ parts else add_to_first b parts

-- `strings.SplitN(s, sep, 2)`, where it gives two parts.
abbrev after_first : ℕ → Option (Bytes × Bytes) → Option (Bytes × Bytes)
after_first b none = none
after_first b (some (p, rest)) = some (b ∷ p, rest)

abbrev pub split_two : ℕ → Bytes → Option (Bytes × Bytes)
split_two sep [] = none
split_two sep (b ∷ bs) =
    let parts = split_two sep bs in if b == sep then some ([], bs) else after_first b parts

-- `strconv.ParseUint(s, 10, bits)`
abbrev pub parse_digits : ℕ → Bytes → Outcome TextError ℕ
parse_digits acc [] = ok acc
parse_digits acc (b ∷ bs) =
    let more = parse_digits (10 * acc + (b - 48)) bs in
    if leb 48 b && leb b 57 then more else err TextError.bad_number

unfoldable pub parse_uint : ℕ → Bytes → Outcome TextError ℕ
parse_uint bits s = do
  check (not (length s == 0)) TextError.bad_number
  v ← parse_digits 0 s
  check (ltb v (2 ^ bits)) TextError.bad_number
  ok v

-- `strconv.Atoi(s)`, where an int has 64 bits.
abbrev negated : ℕ → ℤ
negated zero = ℤ.pos 0
negated (suc n) = ℤ.negsuc n

unfoldable pub atoi : Bytes → Outcome TextError ℤ
atoi s =
    let sign = get_or s 0 0 in
    let digits = if sign == 43 || sign == 45 then drop 1 s else s in
    do
      v ← parse_uint 64 digits
      check (ltb v (2 ^ 63) || sign == 45 && v == 2 ^ 63) TextError.bad_number
      ok (if sign == 45 then negated v else ℤ.pos v)

-- `TrustAnchorIDFromString`
unfoldable pub append_texts : Bytes → List Bytes → Outcome TextError Bytes
append_texts t [] = ok t
append_texts t (p ∷ ps) = do v ← parse_uint 32 p; append_texts (append_base128 t v) ps

unfoldable pub id_from_string : Bytes → Outcome TextError Bytes
id_from_string s = do
  t ← append_texts [] (split 46 s)
  check (not (length t == 0)) TextError.bad_id
  ok t

-- `TrustAnchorIDPatternFromString`
unfoldable pub append_pattern_range_with_infinity : Bytes → ℕ → Bytes
append_pattern_range_with_infinity pattern min = append_base128 pattern min ++ (128 ∷ [])

abbrev pub is_braced : Bytes → Bool
is_braced [] = false
is_braced (b ∷ bs) = b == 123 && get_or (b ∷ bs) (length bs) 0 == 125

unfoldable pub append_braced : Bytes → Bytes → Outcome TextError Bytes
append_braced t part = do
  (lo, hi) ← found TextError.bad_pattern (split_two 45 part)
  min ← parse_uint 32 lo
  if length hi == 0
      then ok (append_pattern_range_with_infinity t min)
      else (do max ← parse_uint 32 hi; ok (append_pattern_range t min max))

unfoldable pub append_pattern_texts : Bytes → List Bytes → Outcome TextError Bytes
append_pattern_texts t [] = ok t
append_pattern_texts t (p ∷ ps) = do
  t' ←
      if is_braced p
      then append_braced t (take (length p - 2) (drop 1 p))
      else (do v ← parse_uint 32 p; ok (append_pattern_range t v v))
  append_pattern_texts t' ps

unfoldable pub id_pattern_from_string : Bytes → Outcome TextError Bytes
id_pattern_from_string s = do
  t ← append_pattern_texts [] (split 46 s)
  check (not (length t == 0)) TextError.bad_pattern
  ok t

-- `parseObjectIdentifier`
abbrev not_negative : ℤ → Outcome TextError ℕ
not_negative (ℤ.pos n) = ok n
not_negative (ℤ.negsuc n) = err TextError.bad_oid

unfoldable pub oid_components : List Bytes → Outcome TextError Oid
oid_components [] = ok []
oid_components (p ∷ ps) = do n ← atoi p; v ← not_negative n; vs ← oid_components ps; ok (v ∷ vs)

unfoldable pub parse_object_identifier : Bytes → Outcome TextError Oid
parse_object_identifier s = do
  oid ← oid_components (split 46 s)
  let first = get_or oid 0 0
  check (not (ltb (length oid) 2 || (ltb 2 first || ltb first 2 && leb 40 (get_or oid 1 0))))
      TextError.bad_oid
  ok oid

-- The constants of `x509.KeyUsage` by their names.
abbrev pub key_usage_of : Bytes → Option ℕ
key_usage_of value =
    if bytes_eq value (codes "DigitalSignature")
    then some 1
    else if bytes_eq value (codes "ContentCommitment")
    then some 2
    else if bytes_eq value (codes "KeyEncipherment")
    then some 4
    else if bytes_eq value (codes "DataEncipherment")
    then some 8
    else if bytes_eq value (codes "KeyAgreement")
    then some 16
    else if bytes_eq value (codes "CertSign")
    then some 32
    else if bytes_eq value (codes "CRLSign")
    then some 64
    else if bytes_eq value (codes "EncipherOnly")
    then some 128
    else if bytes_eq value (codes "DecipherOnly")
    then some 256
    else none

-- `KeyUsageConfig.UnmarshalJSON` of a list of strings.
unfoldable pub key_usage_from_values : ℕ → List Bytes → Outcome TextError ℕ
key_usage_from_values result [] = ok result
key_usage_from_values result (v ∷ vs) = do
  bit ← found TextError.unknown_usage (key_usage_of v)
  key_usage_from_values (bit_or result bit) vs

abbrev oid_server_auth : Oid
oid_server_auth = 1 ∷ 3 ∷ 6 ∷ 1 ∷ 5 ∷ 5 ∷ 7 ∷ 3 ∷ 1 ∷ []

unfoldable pub ext_key_usage_from_text : Bytes → Outcome TextError Oid
ext_key_usage_from_text s =
    if bytes_eq s (codes "ServerAuth") then ok oid_server_auth else parse_object_identifier s

-- `parseSerial`
unfoldable pub parse_log_and_index : List Bytes → Outcome TextError ℕ
parse_log_and_index [] = err TextError.bad_serial
parse_log_and_index (a ∷ []) = err TextError.bad_serial
parse_log_and_index (a ∷ b ∷ []) = do
  log ← parse_uint 16 a
  index ← parse_uint 48 b
  ok (bit_or (log * 2 ^ 48 % 2 ^ 64) index)
parse_log_and_index (a ∷ b ∷ c ∷ parts) = err TextError.bad_serial

unfoldable pub parse_serial : Bytes → Outcome TextError ℕ
parse_serial s =
    if bytes_eq s (codes "max")
    then ok (2 ^ 64 - 1)
    else if ltb 1 (length (split 58 s))
    then parse_log_and_index (split 58 s)
    else parse_uint 64 s
