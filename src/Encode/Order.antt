-- ===== src/Encode/Order.antt =====
-- The order of cosigners, `compareCosignerIDs` of demo/encode.go.
use merkle_tree_certs.Prelude.{
  ℕ, ◌<◌, inl, inr, List, [], ◌∷◌, ◌++◌, length, ap, ◌≡◌, refl, sym, ◌≢◌, All, All-weaken, ◌⊎◌,
  arith,
}
use mathlib.Core.Path.{ap₂}
use merkle_tree_certs.Log.Hash.{Bytes}
use merkle_tree_certs.Encode.Certificate.{
  Comparison, less, equal, greater, compare_numbers, or_else, compare_bytes, compare_cosigner_ids,
}

compare_numbers-less : (a b : ℕ) → compare_numbers a b ≡ less → a < b
compare_numbers-less a b e = ground arith

less-compare_numbers : (a b : ℕ) → a < b → compare_numbers a b ≡ less
less-compare_numbers a b e = ground arith

compare_numbers-equal : (a b : ℕ) → compare_numbers a b ≡ equal → a ≡ b
compare_numbers-equal a b e = ground arith

equal-compare_numbers : (a : ℕ) → compare_numbers a a ≡ equal
equal-compare_numbers a = ground arith

compare_numbers-greater : (a b : ℕ) → compare_numbers a b ≡ greater → b < a
compare_numbers-greater a b e = ground arith

or_else-less : (d e : Comparison) → or_else d e ≡ less → (d ≡ less) ⊎ ((d ≡ equal) × (e ≡ less))
or_else-less less e h = inl refl
or_else-less equal e h = inr (refl, h)
or_else-less greater e h = cc

or_else-equal : (d e : Comparison) → or_else d e ≡ equal → (d ≡ equal) × (e ≡ equal)
or_else-equal less e h = cc
or_else-equal equal e h = (refl, h)
or_else-equal greater e h = cc

or_else-greater :
    (d e : Comparison) → or_else d e ≡ greater → (d ≡ greater) ⊎ ((d ≡ equal) × (e ≡ greater))
or_else-greater less e h = cc
or_else-greater equal e h = inr (refl, h)
or_else-greater greater e h = inl refl

-- One key before another: less on the first field, or equal there and less on the second.
or_else_before : (a b : ℕ) (e : Comparison) → a < b → or_else (compare_numbers a b) e ≡ less
or_else_before a b e h = rw (less-compare_numbers a b h) refl

or_else_tie : (a b : ℕ) (e : Comparison) → a ≡ b → e ≡ less → or_else (compare_numbers a b) e ≡ less
or_else_tie a b e h t = rw h (rw (equal-compare_numbers b) t)

lex_swap :
    (m n : ℕ) (d e : Comparison)
    → or_else (compare_numbers m n) d ≡ greater
    → (d ≡ greater → e ≡ less)
    → or_else (compare_numbers n m) e ≡ less
lex_swap m n d e h swap = elim (or_else-greater (compare_numbers m n) d h) [
  | inl g ↦ or_else_before n m e (compare_numbers-greater m n g)
  | inr (g, t) ↦ or_else_tie n m e (sym (compare_numbers-equal m n g)) (swap t)
]

lex_trans :
    (m n k : ℕ) (d e f : Comparison)
    → or_else (compare_numbers m n) d ≡ less
    → or_else (compare_numbers n k) e ≡ less
    → (d ≡ less → e ≡ less → f ≡ less)
    → or_else (compare_numbers m k) f ≡ less
lex_trans m n k d e f p q trans = elim (or_else-less (compare_numbers m n) d p) [
  | inl g ↦
      let before = compare_numbers-less m n g in
      elim (or_else-less (compare_numbers n k) e q) [
        | inl h ↦ let after = compare_numbers-less n k h in or_else_before m k f (omega arith)
        | inr (h, t) ↦ let after = compare_numbers-equal n k h in or_else_before m k f (omega arith)
      ]
  | inr (g, s) ↦
      let same = compare_numbers-equal m n g in
      elim (or_else-less (compare_numbers n k) e q) [
        | inl h ↦ let after = compare_numbers-less n k h in or_else_before m k f (omega arith)
        | inr (h, t) ↦
            let after = compare_numbers-equal n k h in or_else_tie m k f (omega arith) (trans s t)
      ]
]

compare_bytes-equal : (a b : Bytes) → compare_bytes a b ≡ equal → a ≡ b
compare_bytes-equal [] [] e = refl
compare_bytes-equal [] (y ∷ ys) e = cc
compare_bytes-equal (x ∷ xs) [] e = cc
compare_bytes-equal (x ∷ xs) (y ∷ ys) e =
    let (h, t) = or_else-equal (compare_numbers x y) (compare_bytes xs ys) e in
    ap₂ (λ p q. p ∷ q) (compare_numbers-equal x y h) (compare_bytes-equal xs ys t)

compare_bytes_swap : (a b : Bytes) → compare_bytes a b ≡ greater → compare_bytes b a ≡ less
compare_bytes_swap [] [] e = cc
compare_bytes_swap [] (y ∷ ys) e = cc
compare_bytes_swap (x ∷ xs) [] e = refl
compare_bytes_swap (x ∷ xs) (y ∷ ys) e =
    lex_swap x y (compare_bytes xs ys) (compare_bytes ys xs) e (compare_bytes_swap xs ys)

compare_bytes_trans :
    (a b c : Bytes) → compare_bytes a b ≡ less → compare_bytes b c ≡ less → compare_bytes a c ≡ less
compare_bytes_trans [] [] c e f = cc
compare_bytes_trans [] (y ∷ ys) [] e f = cc
compare_bytes_trans [] (y ∷ ys) (z ∷ zs) e f = refl
compare_bytes_trans (x ∷ xs) [] c e f = cc
compare_bytes_trans (x ∷ xs) (y ∷ ys) [] e f = cc
compare_bytes_trans (x ∷ xs) (y ∷ ys) (z ∷ zs) e f =
    lex_trans x y z (compare_bytes xs ys) (compare_bytes ys zs) (compare_bytes xs zs) e f
      (compare_bytes_trans xs ys zs)

pub compare_cosigner_ids-equal : (a b : Bytes) → compare_cosigner_ids a b ≡ equal → a ≡ b
unfolding compare_cosigner_ids
compare_cosigner_ids-equal a b e =
    compare_bytes-equal a b
      (or_else-equal (compare_numbers (length a) (length b)) (compare_bytes a b) e).1

pub compare_cosigner_ids_swap :
    (a b : Bytes) → compare_cosigner_ids a b ≡ greater → compare_cosigner_ids b a ≡ less
unfolding compare_cosigner_ids
compare_cosigner_ids_swap a b e =
    lex_swap (length a) (length b) (compare_bytes a b) (compare_bytes b a) e
      (compare_bytes_swap a b)

pub compare_cosigner_ids_trans :
    (a b c : Bytes)
    → compare_cosigner_ids a b ≡ less
    → compare_cosigner_ids b c ≡ less
    → compare_cosigner_ids a c ≡ less
unfolding compare_cosigner_ids
compare_cosigner_ids_trans a b c e f =
    lex_trans (length a) (length b) (length c) (compare_bytes a b) (compare_bytes b c)
      (compare_bytes a c) e f (compare_bytes_trans a b c)

compare_bytes_refl : (a : Bytes) → compare_bytes a a ≡ equal
compare_bytes_refl [] = refl
compare_bytes_refl (x ∷ xs) = rw (equal-compare_numbers x) (compare_bytes_refl xs)

-- An ID does not come before itself.
pub compare_cosigner_ids_refl : (a : Bytes) → compare_cosigner_ids a a ≡ equal
unfolding compare_cosigner_ids
compare_cosigner_ids_refl a = rw (equal-compare_numbers (length a)) (compare_bytes_refl a)

-- Each ID comes before all that follow it.
abbrev pub Ascending : List Bytes → Type 0
Ascending [] = Unit {0}
Ascending (a ∷ cs) = All (λ b. compare_cosigner_ids a b ≡ less) cs × Ascending cs

abbrev pub AreDistinct : List Bytes → Type 0
AreDistinct [] = Unit {0}
AreDistinct (a ∷ cs) = All (λ b. a ≢ b) cs × AreDistinct cs

-- What comes before the first of a list comes before all of it.
pub Ascending_before :
    (a b : Bytes) (cs : List Bytes)
    → compare_cosigner_ids a b ≡ less
    → All (λ c. compare_cosigner_ids b c ≡ less) cs
    → All (λ c. compare_cosigner_ids a c ≡ less) cs
Ascending_before a b cs h all =
    All-weaken (λ c. compare_cosigner_ids b c ≡ less) (λ c. compare_cosigner_ids a c ≡ less) cs
      (λ c t. compare_cosigner_ids_trans a b c h t) all

-- The bytes are equal up to a place where the first ones have the smaller byte.
abbrev pub IsSmaller : Bytes → Bytes → Type 0
IsSmaller a b =
    (front : Bytes) × (x : ℕ) × (xs : Bytes) × (y : ℕ) × (ys : Bytes) × (a ≡ front ++ (x ∷ xs))
    × (b ≡ front ++ (y ∷ ys))
    × (x < y)

-- The order of the cosigner IDs of a proof: shorter ones first, and IDs of one length by their bytes.
abbrev pub IsBefore : Bytes → Bytes → Type 0
IsBefore a b = (length a < length b) ⊎ ((length a ≡ length b) × IsSmaller a b)

-- Each ID is before all that follow it.
abbrev pub AreOrdered : List Bytes → Type 0
AreOrdered [] = Unit {0}
AreOrdered (a ∷ cs) = All (IsBefore a) cs × AreOrdered cs

IsSmaller-tail : (x y : ℕ) (a b : Bytes) → x ≡ y → IsSmaller a b → IsSmaller (x ∷ a) (y ∷ b)
IsSmaller-tail x y a b e (front, u, us, v, vs, ea, eb, h) =
    (x ∷ front, u, us, v, vs, ap (λ t. x ∷ t) ea, ap₂ (λ n t. n ∷ t) (sym e) eb, h)

compare_bytes-IsSmaller :
    (a b : Bytes) → length a ≡ length b → compare_bytes a b ≡ less → IsSmaller a b
compare_bytes-IsSmaller [] [] len e = cc
compare_bytes-IsSmaller [] (y ∷ ys) len e = absurd (omega arith)
compare_bytes-IsSmaller (x ∷ xs) [] len e = absurd (omega arith)
compare_bytes-IsSmaller (x ∷ xs) (y ∷ ys) len e =
    elim (or_else-less (compare_numbers x y) (compare_bytes xs ys) e) [
      | inl g ↦ ([], x, xs, y, ys, refl, refl, compare_numbers-less x y g)
      | inr (g, t) ↦
          IsSmaller-tail x y xs ys (compare_numbers-equal x y g)
            (compare_bytes-IsSmaller xs ys (omega arith) t)
    ]

pub compare_cosigner_ids-IsBefore : (a b : Bytes) → compare_cosigner_ids a b ≡ less → IsBefore a b
unfolding compare_cosigner_ids
compare_cosigner_ids-IsBefore a b e =
    elim (or_else-less (compare_numbers (length a) (length b)) (compare_bytes a b) e) [
      | inl g ↦ inl (compare_numbers-less (length a) (length b) g)
      | inr (g, t) ↦
          let same = compare_numbers-equal (length a) (length b) g in
          inr (same, compare_bytes-IsSmaller a b same t)
    ]

pub Ascending-AreOrdered : (cs : List Bytes) → Ascending cs → AreOrdered cs
Ascending-AreOrdered [] up = tt
Ascending-AreOrdered (a ∷ cs) (below, up) = (
  All-weaken (λ b. compare_cosigner_ids a b ≡ less) (IsBefore a) cs
      (compare_cosigner_ids-IsBefore a) below,
  Ascending-AreOrdered cs up,
)
