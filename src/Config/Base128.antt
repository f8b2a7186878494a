-- ===== src/Config/Base128.antt =====
-- `parseBase128` and `appendBase128` of demo/config.go. A byte is a number below 256, and the value
-- is a uint32.
pub mod Masks
pub mod RoundTrip
use merkle_tree_certs.Prelude.{ℕ, zero, suc, ◌+◌, ◌-◌, ◌*◌, ◌/◌, ◌%◌, ◌^◌, bit_and, bit_or}
use merkle_tree_certs.Prelude.{Bool, true, false, ltb, ◌==◌, if◌then◌else◌, not}
use merkle_tree_certs.Prelude.{[], ◌∷◌, ◌++◌}
use merkle_tree_certs.Log.Hash.{Bytes}

-- The named results of `parseBase128`.
pub record Parsed : Type 0 where
  pub ret : ℕ
  pub rest : Bytes
  pub ok : Bool

-- The loop: it stops where the input ends or where `ret<<7` would overflow.
unfoldable pub parse_loop : Bytes → ℕ → Parsed
parse_loop [] ret = record { ret = ret; rest = []; ok = false }
parse_loop (b ∷ rest) ret =
    let shifted = ret * 2 ^ 7 % 2 ^ 32 in
    let ret' = bit_or shifted (bit_and b 127) in
    let more = parse_loop rest ret' in
    if not (shifted / 2 ^ 7 == ret)
    then record { ret = ret; rest = b ∷ rest; ok = false }
    else if bit_and b 128 == 0
    then record { ret = ret'; rest = rest; ok = true }
    else more

unfoldable pub parse_base128 : Bytes → Parsed
parse_base128 [] = record { ret = 0; rest = []; ok = false }
parse_base128 (b ∷ rest) =
    let parsed = parse_loop (b ∷ rest) 0 in
    if b == 128 then record { ret = 0; rest = b ∷ rest; ok = false } else parsed

-- `for n := v; n != 0; n >>= 7`: 5 rounds for 32 binary digits.
unfoldable pub count_bytes : ℕ → ℕ → ℕ
count_bytes zero n = 0
count_bytes (suc fuel) n = let more = count_bytes fuel (n / 2 ^ 7) in if n == 0 then 0 else suc more

unfoldable pub base128_length : ℕ → ℕ
base128_length v = if v == 0 then 1 else count_bytes 5 v

-- `for ; l > 0; l--`. The argument is the `l` that is left, so the byte is that of `l-1`.
unfoldable pub append_loop : ℕ → ℕ → Bytes → Bytes
append_loop zero v dst = dst
append_loop (suc l) v dst =
    let b = bit_and (v / 2 ^ (7 * l) % 256) 127 in
    append_loop l v (dst ++ ((if ltb 0 l then bit_or b 128 else b) ∷ []))

unfoldable pub append_base128 : Bytes → ℕ → Bytes
append_base128 dst v = append_loop (base128_length v) v dst
