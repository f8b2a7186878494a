-- ===== src/Policy/File/Numbers.antt =====
-- The numbers of a policy file of demo/verify.go, as one writes them.
use merkle_tree_certs.Prelude.{
  ℕ, ℤ, ◌+◌, ◌*◌, ◌%◌, ◌++◌, ◌-◌, ◌^◌, ◌<◌, ◌≤◌, ◌≡◌, refl, ap, arith, [], ◌∷◌, All,
}
use merkle_tree_certs.Prelude.{ok, bytes_eq, codes, false, true, ◌==◌, ltb}
use merkle_tree_certs.Log.Hash.{Bytes}
use merkle_tree_certs.Config.Algorithm.{}
use merkle_tree_certs.Config.AnchorId.{format_decimal}
use merkle_tree_certs.Config.Base128.Masks.{bit_or-low}
use merkle_tree_certs.Config.FromText.{
  parse_log_and_index, split, add_to_first, atoi, parse_serial, parse_uint,
}
use merkle_tree_certs.Config.FromText.Decimal.{
  IsDigit, first-IsDigit, format_decimal-IsDigit, format_decimal-nonempty,
  parse_uint-format_decimal,
}
use merkle_tree_certs.Policy.File.{group_number}

-- The decimal text of a number below 10 ^ 20.
abbrev pub decimal : ℕ → Bytes
decimal n = format_decimal 20 n

-- A serial number as a policy file writes it: the largest, a number, or a log number and an index.
pub data Serial : Bytes → ℕ → Type 0 where
  largest : Serial (codes "max") (2 ^ 64 - 1)
  numbered : {n : ℕ} → n < 2 ^ 64 → Serial (decimal n) n
  of_log :
      {log index : ℕ}
      → log < 2 ^ 16
      → index < 2 ^ 48
      → Serial (decimal log ++ (58 ∷ decimal index)) (log * 2 ^ 48 + index)

-- How many of a group's members must hold.
pub data Quorum : Bytes → ℕ → ℕ → Type 0 where
  any_member : {size : ℕ} → Quorum (codes "any") size 1
  all_members : {size : ℕ} → Quorum (codes "all") size size
  some_members : {size n : ℕ} → 0 < n → n ≤ size → n < 2 ^ 63 → Quorum (decimal n) size n

-- A text that starts with a digit is not a word that starts with a letter.
abbrev pub StartsWithDigit : Bytes → Type 0
StartsWithDigit s = (d : ℕ) × (rest : Bytes) × (s ≡ d ∷ rest) × IsDigit d

decimal-StartsWithDigit : (n : ℕ) → StartsWithDigit (decimal n)
decimal-StartsWithDigit n =
    first-IsDigit (decimal n) (format_decimal-nonempty 19 n) (format_decimal-IsDigit 20 n)

pub no_word :
    (s : Bytes) (c : ℕ) (cs : Bytes) → StartsWithDigit s → 57 < c → bytes_eq s (c ∷ cs) ≡ false
no_word s c cs (d, rest, e, (lo, hi)) h =
    let differ : (d == c) ≡ false = ground arith in rw (e, differ) refl

split_digits : (s : Bytes) → All IsDigit s → split 58 s ≡ s ∷ []
split_digits [] a = refl
split_digits (x ∷ xs) ((lo, hi), a) =
    let other : (x == 58) ≡ false = ground arith in
    rw other (ap (add_to_first x) (split_digits xs a))

split_pair : (s t : Bytes) → All IsDigit s → All IsDigit t → split 58 (s ++ (58 ∷ t)) ≡ s ∷ t ∷ []
split_pair [] t a b = ap (λ ps. [] ∷ ps) (split_digits t b)
split_pair (x ∷ xs) t ((lo, hi), a) b =
    let other : (x == 58) ≡ false = ground arith in
    rw other (ap (add_to_first x) (split_pair xs t a b))

StartsWithDigit-append : (s t : Bytes) → StartsWithDigit s → StartsWithDigit (s ++ t)
StartsWithDigit-append s t (d, rest, e, digit) = (d, rest ++ t, ap (λ u. u ++ t) e, digit)

pub parse_serial-Serial : (s : Bytes) (n : ℕ) → Serial s n → parse_serial s ≡ ok n
unfolding parse_serial parse_log_and_index
parse_serial-Serial s n Serial.largest = refl
parse_serial-Serial s n (Serial.numbered h) =
    rw
      (
        no_word (decimal n) 109 (97 ∷ 120 ∷ []) (decimal-StartsWithDigit n) (omega arith),
        split_digits (decimal n) (format_decimal-IsDigit 20 n),
      )
      (parse_uint-format_decimal 64 19 n (omega arith) h)
parse_serial-Serial s n (Serial.of_log {log} {index} hl hi) =
    let fits : log * 2 ^ 48 % 2 ^ 64 ≡ log * 2 ^ 48 = omega arith in
    rw
      (
        no_word (decimal log ++ (58 ∷ decimal index)) 109 (97 ∷ 120 ∷ [])
            (StartsWithDigit-append (decimal log) (58 ∷ decimal index)
              (decimal-StartsWithDigit log))
            (omega arith),
        split_pair (decimal log) (decimal index) (format_decimal-IsDigit 20 log)
            (format_decimal-IsDigit 20 index),
        parse_uint-format_decimal 16 19 log (omega arith) hl,
        parse_uint-format_decimal 48 19 index (omega arith) hi,
        fits,
      )
      (ap ok (bit_or-low 48 log index hi))

unsigned :
    (s : Bytes) (n : ℕ)
    → StartsWithDigit s
    → n < 2 ^ 63
    → parse_uint 64 s ≡ ok n
    → atoi s ≡ ok (ℤ.pos n)
unfolding atoi
unsigned s n (d, rest, e, (lo, hi)) h read =
    let plus : (d == 43) ≡ false = ground arith in
    let minus : (d == 45) ≡ false = ground arith in
    let small : ltb n (2 ^ 63) ≡ true = ground arith in
    let read' : parse_uint 64 (d ∷ rest) ≡ ok n = rw e at read in
    rw (e, plus, minus, read', small) refl

pub group_number-Quorum :
    (num : Bytes) (size n : ℕ) → Quorum num size n → group_number num size ≡ ok (ℤ.pos n)
unfolding group_number
group_number-Quorum num size n Quorum.any_member = refl
group_number-Quorum num size n Quorum.all_members = refl
group_number-Quorum num size n (Quorum.some_members lo hi small) =
    let digit = decimal-StartsWithDigit n in
    let read =
      unsigned (decimal n) n digit small
        (parse_uint-format_decimal 64 19 n (omega arith) (omega arith)) in
    let not_zero : (n == 0) ≡ false = ground arith in
    let within : ltb size n ≡ false = ground arith in
    rw
      (
        no_word (decimal n) 97 (110 ∷ 121 ∷ []) digit (omega arith),
        no_word (decimal n) 97 (108 ∷ 108 ∷ []) digit (omega arith),
        read,
        not_zero,
        within,
      )
      refl
