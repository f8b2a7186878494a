-- ===== src/Config/Base128/RoundTrip.antt =====
-- Parsing what `append_base128` wrote.
use mathlib.Core.List.{append_assoc, append-nil}
use native.Mathlib.Nat.{div-one, div-lt_iff_lt-mul, le-div_iff_mul-le, div-eq_of_lt}
use native.Mathlib.Decide.{ℕ_discrete}
use merkle_tree_certs.Prelude.{ℕ, zero, suc, ◌+◌, ◌-◌, ◌*◌, ◌/◌, ◌%◌, ◌^◌, ◌≤◌, ◌<◌, ◌≢◌}
use merkle_tree_certs.Prelude.{bit_and, bit_or, ◌≡◌, refl, sym, ap, ◌∙◌, arith}
use merkle_tree_certs.Prelude.{true, false, lt→ltb, ◌==◌, ==_iff, [], ◌∷◌, ◌++◌}
use merkle_tree_certs.Bits.Powers.{two-pow-pos, two-pow-add, shift-le, shift-split}
use merkle_tree_certs.Log.Hash.{Bytes}
use merkle_tree_certs.Config.Base128.{
  parse_loop, parse_base128, count_bytes, base128_length, append_loop, append_base128,
}
use merkle_tree_certs.Config.Base128.Masks.{low_digits, high_digit, set_high, or_digits}

-- One byte of the loop: the last one, or one with the high digit set.
parse_loop_last :
    (b ret : ℕ) (rest : Bytes)
    → b < 128
    → ret < 2 ^ 25
    → parse_loop (b ∷ rest) ret ≡ record { ret = ret * 128 + b; rest = rest; ok = true }
unfolding parse_loop
parse_loop_last b ret rest small room =
    let fits : ret * 128 % 2 ^ 32 ≡ ret * 128 = omega arith in
    let back : (ret * 128 / 128 == ret) ≡ true = (==_iff _ _).1 (omega arith) in
    let low : bit_and b 127 ≡ b = low_digits b ∙ omega arith in
    let high : bit_and b 128 ≡ 0 = high_digit b (omega arith) ∙ omega arith in
    rw (fits, back, high, low, or_digits ret b small) refl

parse_loop_more :
    (b ret : ℕ) (rest : Bytes)
    → b < 128
    → ret < 2 ^ 25
    → parse_loop (bit_or b 128 ∷ rest) ret ≡ parse_loop rest (ret * 128 + b)
unfolding parse_loop
parse_loop_more b ret rest small room =
    let fits : ret * 128 % 2 ^ 32 ≡ ret * 128 = omega arith in
    let back : (ret * 128 / 128 == ret) ≡ true = (==_iff _ _).1 (omega arith) in
    let low : bit_and (128 + b) 127 ≡ b = low_digits (128 + b) ∙ omega arith in
    let high : bit_and (128 + b) 128 ≡ 128 = high_digit (128 + b) (omega arith) ∙ omega arith in
    rw (set_high b small, fits, back, high, low, or_digits ret b small) refl

byte_lem : (x : ℕ) → bit_and (x % 256) 127 ≡ x % 128
byte_lem x = low_digits (x % 256) ∙ omega arith

-- The bytes are written after what is there.
append_loop_dst : (l v : ℕ) (dst : Bytes) → append_loop l v dst ≡ dst ++ append_loop l v []
unfolding append_loop
append_loop_dst zero v dst = sym (append-nil dst)
append_loop_dst (suc l) v dst =
    append_loop_dst l v _
    ∙ append_assoc dst (_ ∷ []) (append_loop l v [])
    ∙ ap (λ t. dst ++ t) (sym (append_loop_dst l v (_ ∷ [])))

-- The first byte and the bytes behind it.
append_loop_last : (v : ℕ) → append_loop 1 v [] ≡ v % 128 ∷ []
unfolding append_loop
append_loop_last v =
    let whole : v / 2 ^ (7 * 0) ≡ v = omega (arith, div-one v) in
    rw (byte_lem (v / 2 ^ (7 * 0)), whole) refl

append_loop_next :
    (l v : ℕ)
    → append_loop (suc (suc l)) v []
      ≡ append_loop (suc l) v (bit_or (bit_and (v / 2 ^ (7 * suc l) % 256) 127) 128 ∷ [])
unfolding append_loop
append_loop_next l v = rw (lt→ltb 0 (suc l) (omega arith)) refl

append_loop_more :
    (l v : ℕ)
    → append_loop (suc (suc l)) v []
      ≡ bit_or (v / 2 ^ (7 * suc l) % 128) 128 ∷ append_loop (suc l) v []
append_loop_more l v =
    append_loop_next l v
    ∙ append_loop_dst (suc l) v (bit_or (bit_and (v / 2 ^ (7 * suc l) % 256) 127) 128 ∷ [])
    ∙ ap (λ t. bit_or t 128 ∷ append_loop (suc l) v []) (byte_lem (v / 2 ^ (7 * suc l)))

-- A group of seven digits in front of the ones read.
group_lem : (l v : ℕ) → v / 2 ^ (7 * suc l) * 128 + v / 2 ^ (7 * l) % 128 ≡ v / 2 ^ (7 * l)
group_lem l v =
    let e : 7 * suc l - 7 * l ≡ 7 = omega arith in
    let s : v / 2 ^ (7 * suc l) ≡ v / 2 ^ (7 * l) / 128 =
      shift-split v (7 * l) (7 * suc l) (omega arith) ∙ ap (λ t. v / 2 ^ (7 * l) / 2 ^ t) e in
    omega (arith, s)

parse_loop-append_loop :
    (l v : ℕ) (rest : Bytes)
    → v < 2 ^ 32
    → parse_loop (append_loop (suc l) v [] ++ rest) (v / 2 ^ (7 * suc l))
      ≡ record { ret = v; rest = rest; ok = true }
parse_loop-append_loop zero v rest bound =
    let whole : v / 2 ^ (7 * 1) * 128 + v % 128 ≡ v = omega arith in
    ap (λ t. parse_loop (t ++ rest) (v / 2 ^ (7 * 1))) (append_loop_last v)
    ∙ parse_loop_last (v % 128) (v / 2 ^ (7 * 1)) rest (omega arith) (omega arith)
    ∙ ap (λ t. record { ret = t; rest = rest; ok = true }) whole
parse_loop-append_loop (suc l) v rest bound =
    let small = shift-le v 7 (7 * suc (suc l)) (omega arith) in
    ap (λ t. parse_loop (t ++ rest) (v / 2 ^ (7 * suc (suc l)))) (append_loop_more l v)
    ∙ parse_loop_more (v / 2 ^ (7 * suc l) % 128) (v / 2 ^ (7 * suc (suc l)))
        (append_loop (suc l) v [] ++ rest) (omega arith) (omega arith)
    ∙ ap (parse_loop (append_loop (suc l) v [] ++ rest)) (group_lem (suc l) v)
    ∙ parse_loop-append_loop l v rest bound

seven_more : (l : ℕ) → 2 ^ (7 * suc l) ≡ 2 ^ (7 * l) * 128
seven_more l =
    let e : 7 * suc l ≡ 7 * l + 7 = omega arith in ap (λ t. 2 ^ t) e ∙ two-pow-add (7 * l) 7

count_bytes-zero : (f : ℕ) → count_bytes f 0 ≡ 0
unfolding count_bytes
count_bytes-zero zero = refl
count_bytes-zero (suc f) = refl

-- The count of bytes is enough for `n`, and none is to spare.
count_bytes_lem :
    (f n : ℕ)
    → n < 2 ^ (7 * f)
    → 0 < n
    → (l : ℕ) × (count_bytes f n ≡ suc l) × (n < 2 ^ (7 * suc l)) × (2 ^ (7 * l) ≤ n)
unfolding count_bytes
count_bytes_lem zero n h pos = absurd (omega arith)
count_bytes_lem (suc f) n h pos =
    let some_left : (n == 0) ≡ false = ground arith in
    elim (ℕ_discrete (n / 2 ^ 7) 0) [
      | yes done ↦ (0, rw (some_left, done) (ap suc (count_bytes-zero f)), omega arith, omega arith)
      | no more ↦
          let (l, e, high, low) =
            count_bytes_lem f (n / 2 ^ 7) (omega (arith, seven_more f)) (omega arith) in
          (
            suc l,
            rw (some_left, e) refl,
            omega (arith, seven_more (suc l)),
            omega (arith, seven_more l),
          )
    ]

parse_base128_loop :
    (b : ℕ) (rest : Bytes) → b ≢ 128 → parse_base128 (b ∷ rest) ≡ parse_loop (b ∷ rest) 0
unfolding parse_base128
parse_base128_loop b rest other = ground arith

-- The first of several bytes is not 0x80: the first group of digits is not zero.
parse_first :
    (l v : ℕ) (rest : Bytes)
    → v < 2 ^ (7 * suc l)
    → (0 < l → 2 ^ (7 * l) ≤ v)
    → parse_base128 (append_loop (suc l) v [] ++ rest)
      ≡ parse_loop (append_loop (suc l) v [] ++ rest) 0
parse_first zero v rest high low =
    rw (append_loop_last v) (parse_base128_loop (v % 128) rest (omega arith))
parse_first (suc l) v rest high low =
    let below : v / 2 ^ (7 * suc l) < 128 =
      (div-lt_iff_lt-mul (two-pow-pos (7 * suc l))).1 (omega (arith, seven_more (suc l))) in
    let some_digit : 1 ≤ v / 2 ^ (7 * suc l) =
      (le-div_iff_mul-le (two-pow-pos (7 * suc l))).1 (omega (arith, low (omega arith))) in
    let b = v / 2 ^ (7 * suc l) % 128 in
    rw (append_loop_more l v) (
      parse_base128_loop (bit_or b 128) (append_loop (suc l) v [] ++ rest)
        (λ e. omega (arith, set_high b (omega arith), e)))

base128_length_lem :
    (v : ℕ)
    → v < 2 ^ 32
    → (l : ℕ) × (base128_length v ≡ suc l) × (v < 2 ^ (7 * suc l)) × (0 < l → 2 ^ (7 * l) ≤ v)
unfolding base128_length
base128_length_lem v bound = elim (ℕ_discrete v 0) [
  | yes none ↦ (0, rw none refl, omega arith, λ h. absurd (omega arith))
  | no some ↦
      let (l, e, high, low) = count_bytes_lem 5 v (omega arith) (omega arith) in
      let other : (v == 0) ≡ false = ground arith in (l, rw other e, high, λ h. low)
]

-- `parseBase128` reads back every uint32 that `appendBase128` wrote, and leaves what follows it.
pub parse_base128-append_base128 :
    (v : ℕ) (rest : Bytes)
    → v < 2 ^ 32
    → parse_base128 (append_base128 [] v ++ rest) ≡ record { ret = v; rest = rest; ok = true }
unfolding append_base128
parse_base128-append_base128 v rest bound =
    let (l, e, high, low) = base128_length_lem v bound in
    let start : v / 2 ^ (7 * suc l) ≡ 0 = div-eq_of_lt high in
    ap (λ t. parse_base128 (append_loop t v [] ++ rest)) e
    ∙ parse_first l v rest high low
    ∙ ap (parse_loop (append_loop (suc l) v [] ++ rest)) (sym start)
    ∙ parse_loop-append_loop l v rest bound

-- `appendBase128` writes its bytes after those that are there, and changes none of them.
pub append_base128_dst : (dst : Bytes) (v : ℕ) → append_base128 dst v ≡ dst ++ append_base128 [] v
unfolding append_base128
append_base128_dst dst v = append_loop_dst (base128_length v) v dst
