-- ===== src/Config/FromText/Decimal.antt =====
-- The decimal digits of demo/config.go: a number's text is read back as the number.
use native.Mathlib.Nat.{pow-suc}
use mathlib.Core.List.{append_assoc, append-nil}
use merkle_tree_certs.Prelude.{
  ℕ, zero, suc, ◌+◌, ◌*◌, ◌/◌, ◌%◌, ◌^◌, ◌<◌, ◌≤◌, ◌≡◌, refl, sym, ap, ◌∙◌, arith, Bool-cases, inl,
  inr,
}
use merkle_tree_certs.Prelude.{
  List, [], ◌∷◌, ◌++◌, length, All, ltb, ◌==◌, true, false, ok, length-append,
}
use merkle_tree_certs.Log.Hash.{Bytes}
use merkle_tree_certs.Config.AnchorId.{format_decimal}
use merkle_tree_certs.Config.FromText.{parse_digits, parse_uint}

abbrev pub IsDigit : ℕ → Type 0
IsDigit b = (48 ≤ b) × (b ≤ 57)

All-append {ℓ} :
    {A : Type ℓ} (P : A → Type 0) (xs ys : List A) → All P xs → All P ys → All P (xs ++ ys)
All-append P [] ys a b = b
All-append P (x ∷ xs) ys (p, a) b = (p, All-append P xs ys a b)

pub format_decimal-IsDigit : (fuel n : ℕ) → All IsDigit (format_decimal fuel n)
unfolding format_decimal
format_decimal-IsDigit zero n = tt
format_decimal-IsDigit (suc fuel) n = elim (Bool-cases (ltb n 10)) [
  | inl t ↦ rw t (let small : n < 10 = ground arith in ((omega arith, omega arith), tt))
  | inr f ↦ rw f (
      All-append IsDigit (format_decimal fuel (n / 10)) ((48 + n % 10) ∷ [])
        (format_decimal-IsDigit fuel (n / 10)) ((omega arith, omega arith), tt))
]

parse_digits_step :
    (acc d : ℕ) (rest : Bytes)
    → d < 10
    → parse_digits acc ((48 + d) ∷ rest) ≡ parse_digits (10 * acc + d) rest
parse_digits_step acc d rest h = ground arith

parse_digits-format_decimal :
    (fuel n : ℕ) (rest : Bytes)
    → n < 10 ^ fuel
    → parse_digits 0 (format_decimal fuel n ++ rest) ≡ parse_digits n rest
unfolding format_decimal
parse_digits-format_decimal zero n rest h = ap (λ m. parse_digits m rest) (omega arith)
parse_digits-format_decimal (suc fuel) n rest h = elim (Bool-cases (ltb n 10)) [
  | inl t ↦ rw t (
      let small : n < 10 = ground arith in
      parse_digits_step 0 n rest small ∙ ap (λ m. parse_digits m rest) (omega arith))
  | inr f ↦
      let tens = n / 10 in
      let low = n % 10 in
      rw f (
        ap (parse_digits 0) (append_assoc (format_decimal fuel tens) ((48 + low) ∷ []) rest)
        ∙ parse_digits-format_decimal fuel tens ((48 + low) ∷ rest) (omega (arith, pow-suc 10 fuel))
        ∙ parse_digits_step tens low rest (omega arith)
        ∙ ap (λ m. parse_digits m rest) (omega arith))
]

pub format_decimal-nonempty : (fuel n : ℕ) → 0 < length (format_decimal (suc fuel) n)
unfolding format_decimal
format_decimal-nonempty fuel n = elim (Bool-cases (ltb n 10)) [
  | inl t ↦ rw t (omega arith)
  | inr f ↦ rw f (omega (arith, length-append (format_decimal fuel (n / 10)) ((48 + n % 10) ∷ [])))
]

-- The text of a number that fits in so many bits is read back.
pub parse_uint-format_decimal :
    (bits fuel n : ℕ)
    → n < 10 ^ suc fuel
    → n < 2 ^ bits
    → parse_uint bits (format_decimal (suc fuel) n) ≡ ok n
unfolding parse_uint
parse_uint-format_decimal bits fuel n h fits =
    let digits = format_decimal (suc fuel) n in
    let full : (length digits == 0) ≡ false =
      let h' = format_decimal-nonempty fuel n in ground arith in
    let read : parse_digits 0 digits ≡ ok n =
      ap (parse_digits 0) (sym (append-nil digits))
      ∙ parse_digits-format_decimal (suc fuel) n [] h in
    let small : ltb n (2 ^ bits) ≡ true = ground arith in rw (full, read, small) refl

pub first-IsDigit :
    (s : Bytes)
    → 0 < length s
    → All IsDigit s
    → (d : ℕ) × (rest : Bytes) × (s ≡ d ∷ rest) × IsDigit d
first-IsDigit [] h a = absurd (omega arith)
first-IsDigit (d ∷ rest) h (digit, a) = (d, rest, refl, digit)
