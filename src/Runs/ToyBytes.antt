-- ===== src/Runs/ToyBytes.antt =====
-- A byte library that keeps the laws of cryptobyte, for the runs: numbers and lengths are
-- big-endian, and every ASN.1 length has one byte.
use merkle_tree_certs.Prelude.{
  ℕ, zero, ◌+◌, ◌*◌, ◌%◌, ◌^◌, ◌<◌, ◌≤◌, [], ◌∷◌, ◌++◌, length, length-append, take, drop, Option,
  none, some, Bool, true, false, ltb, leb, ◌==◌, ==_iff, if◌then◌else◌, ◌≡◌, refl, sym, ap, ◌∙◌,
  arith, Bool-cases, inl, inr,
}
use mathlib.Core.Path.{ap₂}
use merkle_tree_certs.Bits.{big_endian}
use merkle_tree_certs.Log.Hash.{Bytes}
use merkle_tree_certs.Cryptobyte.{Cryptobyte, IsCryptobyte, IsDer, Tag, Oid}
use merkle_tree_certs.Runs.ToyNumbers.{
  read_number, take_prefix, drop_prefix, with_length, cut, read_with_length,
  read_with_length-with_length, with_length-IsPrefix, big_endian-IsFixed,
}

-- ASN.1 elements: a tag, a byte of length, the contents.
abbrev tag_byte : Tag → ℕ
tag_byte Tag.sequence = 48
tag_byte Tag.set = 49
tag_byte Tag.octet_string = 4
tag_byte Tag.bit_string = 3
tag_byte Tag.utf8_string = 12
tag_byte Tag.relative_oid = 13
tag_byte (Tag.context n) = 128 + n
tag_byte (Tag.constructed n) = 160 + n

abbrev tagged : ℕ → Option Bytes → Option Bytes
tagged t none = none
tagged t (some bs) = some (t ∷ bs)

abbrev starts_with : ℕ → Bytes → Bool
starts_with t [] = false
starts_with t (b ∷ bs) = b == t

abbrev read_tagged : ℕ → Bytes → Option (Bytes × Bytes)
read_tagged t s = if starts_with t s then read_with_length 1 (drop 1 s) else none

abbrev as_element : ℕ → Option (Bytes × Bytes) → Option (Bytes × Bytes)
as_element t none = none
as_element t (some (c, rest)) = some (t ∷ (big_endian 1 (length c) ++ c), rest)

-- Components of an OID, of four bytes each, and the bits of a BIT STRING after the unused ones.
abbrev oid_bytes : Oid → Bytes
oid_bytes [] = []
oid_bytes (n ∷ ns) = big_endian 4 n ++ oid_bytes ns

abbrev oid_numbers : Bytes → Oid
oid_numbers (a ∷ b ∷ c ∷ d ∷ rest) = (((a * 256 + b) * 256 + c) * 256 + d) ∷ oid_numbers rest
oid_numbers rest = []

abbrev as_oid : Option (Bytes × Bytes) → Option (Oid × Bytes)
as_oid none = none
as_oid (some (c, rest)) = some (oid_numbers c, rest)

abbrev whole_bytes : Option (Bytes × Bytes) → Option (Bytes × Bytes)
whole_bytes (some (zero ∷ c, rest)) = some (c, rest)
whole_bytes other = none

abbrev pub toy_bytes : Cryptobyte
toy_bytes = record {
  add_uint16 = big_endian 2;
  add_uint48 = big_endian 6;
  add_uint64 = big_endian 8;
  add_uint8_prefixed = with_length 8 1;
  add_uint16_prefixed = with_length 16 2;
  add_uint24_prefixed = with_length 24 3;
  add_asn1 = λ t c. tagged (tag_byte t) (with_length 8 1 c);
  add_oid = λ o. tagged 6 (with_length 8 1 (oid_bytes o));
  add_asn1_uint64 = λ v. 2 ∷ big_endian 8 v;
  add_asn1_int64 = λ v. 2 ∷ big_endian 8 0;
  add_boolean = λ b. 1 ∷ (if b then 1 else 0) ∷ [];
  add_bit_string = λ c. tagged 3 (with_length 8 1 (0 ∷ c));
  read_uint16 = read_number 2 0;
  read_uint48 = read_number 6 0;
  read_uint64 = read_number 8 0;
  read_uint8_prefixed = read_with_length 1;
  read_uint16_prefixed = read_with_length 2;
  read_uint24_prefixed = read_with_length 3;
  read_asn1 = λ t s. read_tagged (tag_byte t) s;
  read_asn1_element = λ t s. as_element (tag_byte t) (read_tagged (tag_byte t) s);
  read_uint64_integer = λ s. if starts_with 2 s then read_number 8 0 (drop 1 s) else none;
  read_oid = λ s. as_oid (read_tagged 6 s);
  read_bit_string_bytes = λ s. whole_bytes (read_tagged 3 s);
  peek_tag = λ t s. starts_with (tag_byte t) s;
}

pub toy_bytes-IsCryptobyte : IsCryptobyte toy_bytes
toy_bytes-IsCryptobyte = record {
  uint16 = big_endian-IsFixed 16 2 (omega arith) (omega arith);
  uint48 = big_endian-IsFixed 48 6 (omega arith) (omega arith);
  uint64 = big_endian-IsFixed 64 8 (omega arith) (omega arith);
  uint8_prefixed = with_length-IsPrefix 8 1 (omega arith) (omega arith);
  uint16_prefixed = with_length-IsPrefix 16 2 (omega arith) (omega arith);
  uint24_prefixed = with_length-IsPrefix 24 3 (omega arith) (omega arith);
}

with_length_inv :
    (bits k : ℕ) (c bs : Bytes)
    → with_length bits k c ≡ some bs
    → (length c < 2 ^ bits) × (bs ≡ big_endian k (length c) ++ c)
with_length_inv bits k c bs e = elim (Bool-cases (ltb (length c) (2 ^ bits))) [
  | inl t ↦
      let made : some (big_endian k (length c) ++ c) ≡ some bs = rw t at e in (ground arith, cc)
  | inr f ↦ let bad : none ≡ some bs = rw f at e in cc
]

tagged_inv :
    (t : ℕ) (m : Option Bytes) (bs : Bytes)
    → tagged t m ≡ some bs
    → (cs : Bytes) × (m ≡ some cs) × (bs ≡ t ∷ cs)
tagged_inv t none bs e = cc
tagged_inv t (some cs) bs e = (cs, refl, cc)

same_tag : (t : ℕ) → (t == t) ≡ true
same_tag t = (==_iff t t).1 refl

contents_law :
    (t : ℕ) (c bs rest : Bytes)
    → tagged t (with_length 8 1 c) ≡ some bs
    → read_tagged t (bs ++ rest) ≡ some (c, rest)
contents_law t c bs rest e =
    let (cs, ec, eb) = tagged_inv t (with_length 8 1 c) bs e in
    rw (eb, same_tag t) (read_with_length-with_length 8 1 c cs rest (omega arith) ec)

element_law :
    (t : ℕ) (c bs rest : Bytes)
    → tagged t (with_length 8 1 c) ≡ some bs
    → as_element t (read_tagged t (bs ++ rest)) ≡ some (bs, rest)
element_law t c bs rest e =
    let (cs, ec, eb) = tagged_inv t (with_length 8 1 c) bs e in
    ap (as_element t) (contents_law t c bs rest e)
    ∙ ap (λ b. some (b, rest)) (ap (λ b. t ∷ b) (sym (with_length_inv 8 1 c cs ec).1) ∙ sym eb)

peek_law :
    (t : ℕ) (c bs rest : Bytes)
    → tagged t (with_length 8 1 c) ≡ some bs
    → starts_with t (bs ++ rest) ≡ true
peek_law t c bs rest e =
    let (cs, ec, eb) = tagged_inv t (with_length 8 1 c) bs e in rw eb (same_tag t)

cut_prefix :
    (n : ℕ) (s c rest more : Bytes)
    → cut (some (n, s)) ≡ some (c, rest)
    → cut (some (n, s ++ more)) ≡ some (c, rest ++ more)
cut_prefix n s c rest more e = elim (Bool-cases (leb n (length s))) [
  | inl t ↦
      let same : some (take n s, drop n s) ≡ some (c, rest) = rw t at e in
      let head : take n s ≡ c = cc in
      let tail : drop n s ≡ rest = cc in
      let within : n ≤ length s = ground arith in
      let long : leb n (length (s ++ more)) ≡ true = ground (arith, length-append s more) in
      let pieces : ◌≡◌ {A = Option (Bytes × Bytes)} (some (take n (s ++ more), drop n (s ++ more)))
          (some (c, rest ++ more)) =
        ap₂ (λ a b. some (a, b)) (take_prefix n s more within ∙ head)
          (drop_prefix n s more within ∙ ap (λ r. r ++ more) tail) in
      rw long pieces
  | inr f ↦ let bad : none ≡ some (c, rest) = rw f at e in cc
]

read_one :
    (s c rest more : Bytes)
    → read_with_length 1 s ≡ some (c, rest)
    → read_with_length 1 (s ++ more) ≡ some (c, rest ++ more)
unfolding read_number
read_one [] c rest more e = cc
read_one (b ∷ bs) c rest more e = cut_prefix (0 * 256 + b % 256) bs c rest more e

no_lookahead_law :
    (t : ℕ) (s c rest more : Bytes)
    → read_tagged t s ≡ some (c, rest)
    → read_tagged t (s ++ more) ≡ some (c, rest ++ more)
no_lookahead_law t [] c rest more e = cc
no_lookahead_law t (b ∷ bs) c rest more e = elim (Bool-cases (b == t)) [
  | inl y ↦ rw y (read_one bs c rest more (rw y at e))
  | inr n ↦ let bad : none ≡ some (c, rest) = rw n at e in cc
]

pub toy_bytes-IsDer : IsDer toy_bytes
toy_bytes-IsDer = record {
  contents = λ t c bs rest e. contents_law (tag_byte t) c bs rest e;
  element = λ t c bs rest e. element_law (tag_byte t) c bs rest e;
  peek = λ t c bs rest e. peek_law (tag_byte t) c bs rest e;
  no_lookahead = λ t s c rest more e. no_lookahead_law (tag_byte t) s c rest more e;
  uint64 = λ v rest h. (big_endian-IsFixed 64 8 (omega arith) (omega arith)).back v rest h;
  octets = λ c h. rw h refl;
  prefix = λ c bs e. with_length_inv 16 2 c bs e;
  number = λ v h. refl;
}
