-- ===== src/Runs/ToyNumbers.antt =====
-- Big-endian numbers and lengths for the byte library of the runs, with their laws.
use native.Mathlib.Nat.{pow-suc, mul-le-mul_right, mul_assoc, div-add-mod, mod-eq_of_lt, mod-lt}
use merkle_tree_certs.Prelude.{
  ℕ, zero, suc, ◌+◌, ◌*◌, ◌/◌, ◌%◌, ◌^◌, ◌<◌, ◌≤◌, [], ◌∷◌, ◌++◌, length, length-append,
  length-drop, take, drop, take-append, drop-append, Option, none, some, true, ltb, leb,
  if◌then◌else◌, ◌≡◌, refl, sym, ap, ◌∙◌, arith, Bool-cases, inl, inr,
}
use mathlib.Core.List.{append_assoc}
use mathlib.Core.Path.{ap₂}
use merkle_tree_certs.Bits.{big_endian}
use merkle_tree_certs.Bits.Split.{mod-written}
use merkle_tree_certs.Log.Hash.{Bytes}
use merkle_tree_certs.Cryptobyte.{IsPrefix, IsFixed}

unfoldable pub read_number : ℕ → ℕ → Bytes → Option (ℕ × Bytes)
read_number zero acc s = some (acc, s)
read_number (suc k) acc [] = none
read_number (suc k) acc (b ∷ bs) = read_number k (acc * 256 + b % 256) bs

pow_pos : (k : ℕ) → 0 < 256 ^ k
pow_pos zero = omega arith
pow_pos (suc k) = omega (arith, pow-suc 256 k, pow_pos k)

expand : (p a d r : ℕ) → p * (256 * a + d) + r ≡ a * (256 * p) + (d * p + r)
expand p a d r = grind arith

shift : (p a d r : ℕ) → (a * 256 + d) * p + r ≡ a * (256 * p) + (d * p + r)
shift p a d r = grind arith

join : (p a d r q w : ℕ) → q ≡ 256 * p → d * p + r ≡ w → (a * 256 + d) * p + r ≡ a * q + w
join p a d r q w e f = shift p a d r ∙ ap₂ (λ x y. a * x + y) (sym e) f

-- A number by its first digit and the rest.
first-IsDigit : (p v : ℕ) → 0 < p → (v / p % 256) * p + v % p ≡ v % (256 * p)
first-IsDigit p v pos = sym (
    ap (λ t. t % (256 * p)) whole
    ∙ mod-written (256 * p) (v / p / 256) ((v / p % 256) * p + v % p) low)
  where
    q : v / p ≡ 256 * (v / p / 256) + v / p % 256
    q = sym (div-add-mod (v / p) 256)

    whole : v ≡ (v / p / 256) * (256 * p) + ((v / p % 256) * p + v % p)
    whole =
        sym (div-add-mod v p)
        ∙ ap (λ t. p * t + v % p) q
        ∙ expand p (v / p / 256) (v / p % 256) (v % p)

    low : (v / p % 256) * p + v % p < 256 * p
    low = omega (arith, mod-lt v pos, mul-le-mul_right p (the_digit))
      where
        the_digit : v / p % 256 ≤ 255
        the_digit = omega arith

read_number-big_endian :
    (k acc v : ℕ) (rest : Bytes)
    → read_number k acc (big_endian k v ++ rest) ≡ some (acc * 256 ^ k + v % 256 ^ k, rest)
unfolding read_number
read_number-big_endian zero acc v rest = ap (λ t. some (t, rest)) (omega arith)
read_number-big_endian (suc k) acc v rest =
    read_number-big_endian k (acc * 256 + v / 256 ^ k % 256 % 256) v rest
    ∙ ap (λ t. some (t, rest))
        (join (256 ^ k) acc (v / 256 ^ k % 256 % 256) (v % 256 ^ k) (256 ^ suc k) (v % 256 ^ suc k)
          power
          (ap (λ d. d * 256 ^ k + v % 256 ^ k) again
            ∙ first-IsDigit (256 ^ k) v (pow_pos k)
            ∙ ap (λ q. v % q) (sym power)))
  where
    power : 256 ^ suc k ≡ 256 * 256 ^ k
    power = omega (arith, pow-suc 256 k)

    again : v / 256 ^ k % 256 % 256 ≡ v / 256 ^ k % 256
    again = omega arith

read_number-small :
    (k acc : ℕ) (s : Bytes) (v : ℕ) (rest : Bytes)
    → read_number k acc s ≡ some (v, rest)
    → v < (acc + 1) * 256 ^ k
unfolding read_number
read_number-small zero acc s v rest e = let same : acc ≡ v = cc in omega arith
read_number-small (suc k) acc [] v rest e = cc
read_number-small (suc k) acc (b ∷ bs) v rest e = grind (
  arith,
  pow-suc 256 k,
  read_number-small k (acc * 256 + b % 256) bs v rest e,
  mul-le-mul_right (256 ^ k) (digit acc b),
  mul_assoc (acc + 1) 256 (256 ^ k),
)
  where
    digit : (acc b : ℕ) → acc * 256 + b % 256 + 1 ≤ (acc + 1) * 256
    digit acc b = omega arith

read_number-more :
    (k acc : ℕ) (s : Bytes) (v : ℕ) (rest : Bytes)
    → read_number k acc s ≡ some (v, rest)
    → length rest + k ≡ length s
unfolding read_number
read_number-more zero acc s v rest e = let same : s ≡ rest = cc in omega (arith, ap length same)
read_number-more (suc k) acc [] v rest e = cc
read_number-more (suc k) acc (b ∷ bs) v rest e =
    omega (arith, read_number-more k (acc * 256 + b % 256) bs v rest e)

pub take_prefix : (n : ℕ) (s more : Bytes) → n ≤ length s → take n (s ++ more) ≡ take n s
take_prefix zero s more h = refl
take_prefix (suc n) [] more h = absurd (omega arith)
take_prefix (suc n) (b ∷ bs) more h = ap (λ r. b ∷ r) (take_prefix n bs more (omega arith))

pub drop_prefix : (n : ℕ) (s more : Bytes) → n ≤ length s → drop n (s ++ more) ≡ drop n s ++ more
drop_prefix zero s more h = refl
drop_prefix (suc n) [] more h = absurd (omega arith)
drop_prefix (suc n) (b ∷ bs) more h = drop_prefix n bs more (omega arith)

-- Prefixes.
abbrev pub with_length : ℕ → ℕ → Bytes → Option Bytes
with_length bits k c =
    if ltb (length c) (2 ^ bits) then some (big_endian k (length c) ++ c) else none

abbrev pub cut : Option (ℕ × Bytes) → Option (Bytes × Bytes)
cut none = none
cut (some (n, s)) = if leb n (length s) then some (take n s, drop n s) else none

abbrev pub read_with_length : ℕ → Bytes → Option (Bytes × Bytes)
read_with_length k s = cut (read_number k 0 s)

cut-more : (n : ℕ) (s c rest : Bytes) → cut (some (n, s)) ≡ some (c, rest) → length rest ≤ length s
cut-more n s c rest e = elim (Bool-cases (leb n (length s))) [
  | inl t ↦
      let same : some (take n s, drop n s) ≡ some (c, rest) = rw t at e in
      let tail : drop n s ≡ rest = cc in omega (arith, ap length tail, length-drop n s)
  | inr f ↦ let bad : none ≡ some (c, rest) = rw f at e in cc
]

read_with_length-more :
    (k : ℕ) (s c rest : Bytes)
    → 0 < k
    → read_with_length k s ≡ some (c, rest)
    → length rest < length s
read_with_length-more k s c rest pos e = by_number (read_number k 0 s) refl e
  where
    by_number :
        (m : Option (ℕ × Bytes))
        → read_number k 0 s ≡ m
        → cut m ≡ some (c, rest)
        → length rest < length s
    by_number none r e = cc
    by_number (some (n, t)) r e = omega (arith, read_number-more k 0 s n t r, cut-more n t c rest e)

pub read_with_length-with_length :
    (bits k : ℕ) (c bs rest : Bytes)
    → 2 ^ bits ≡ 256 ^ k
    → with_length bits k c ≡ some bs
    → read_with_length k (bs ++ rest) ≡ some (c, rest)
read_with_length-with_length bits k c bs rest same e =
    elim (Bool-cases (ltb (length c) (2 ^ bits))) [
      | inl t ↦
          let made : some (big_endian k (length c) ++ c) ≡ some bs = rw t at e in
          let bytes : bs ≡ big_endian k (length c) ++ c = cc in
          let short : length c < 256 ^ k = ground (arith, same) in
          let value : 0 * 256 ^ k + length c % 256 ^ k ≡ length c =
            omega (arith, mod-eq_of_lt short) in
          let read : read_number k 0 (bs ++ rest) ≡ some (length c, c ++ rest) =
            rw (bytes, append_assoc)
              (read_number-big_endian k 0 (length c) (c ++ rest)
                ∙ ap (λ n. some (n, c ++ rest)) value) in
          let enough : leb (length c) (length (c ++ rest)) ≡ true =
            ground (arith, length-append c rest) in
          rw (read, enough, take-append (length c) c rest refl, drop-append (length c) c rest refl)
            refl
      | inr f ↦ let bad : none ≡ some bs = rw f at e in cc
    ]

pub with_length-IsPrefix :
    (bits k : ℕ)
    → 0 < k
    → 2 ^ bits ≡ 256 ^ k
    → IsPrefix bits (with_length bits k) (read_with_length k)
with_length-IsPrefix bits k pos same = record {
  fits = λ c h.
      let t : ltb (length c) (2 ^ bits) ≡ true = ground arith in
      (big_endian k (length c) ++ c, rw t refl);
  back = λ c bs rest e. read_with_length-with_length bits k c bs rest same e;
  more = λ s c rest e. read_with_length-more k s c rest pos e;
}

pub big_endian-IsFixed :
    (bits k : ℕ) → 0 < k → 2 ^ bits ≡ 256 ^ k → IsFixed bits (big_endian k) (read_number k 0)
big_endian-IsFixed bits k pos same = record {
  back = λ v rest h.
      let short : v < 256 ^ k = omega arith in
      let value : 0 * 256 ^ k + v % 256 ^ k ≡ v = omega (arith, mod-eq_of_lt short) in
      read_number-big_endian k 0 v rest ∙ ap (λ n. some (n, rest)) value;
  more = λ s v rest e. omega (arith, read_number-more k 0 s v rest e);
  small = λ s v rest e. omega (arith, read_number-small k 0 s v rest e);
}
