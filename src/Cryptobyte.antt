-- ===== src/Cryptobyte.antt =====
-- The interface of golang.org/x/crypto/cryptobyte, as demo/*.go uses it. What a function adds to a
-- Builder is the bytes it appends, or an error; the child of a prefixed or ASN.1 element is built
-- first. Reading takes a String and gives what was read and what is left, or fails.
use merkle_tree_certs.Prelude.{
  ℤ, ℕ, ◌^◌, ◌<◌, ◌≡◌, Bool, true, List, ◌∷◌, ◌++◌, length, Option, some,
}
use merkle_tree_certs.Prelude.{Outcome, ok, ◌>>=◌, found, found-some, >>=-eq-ok}
use merkle_tree_certs.Bits.{big_endian}
use merkle_tree_certs.Log.Hash.{Bytes}

-- `asn1.Tag`: the universal tags that the code names, and the context-specific ones.
pub data Tag : Type 0 where
  sequence set octet_string bit_string utf8_string relative_oid : Tag
  context constructed : ℕ → Tag

abbrev pub Oid : Type 0
Oid = List ℕ

pub record Cryptobyte : Type 0 where
  -- Builder: `none` where the contents are too long or no valid OID.
  pub add_uint16 : ℕ → Bytes
  pub add_uint48 : ℕ → Bytes
  pub add_uint64 : ℕ → Bytes
  pub add_uint8_prefixed : Bytes → Option Bytes
  pub add_uint16_prefixed : Bytes → Option Bytes
  pub add_uint24_prefixed : Bytes → Option Bytes
  pub add_asn1 : Tag → Bytes → Option Bytes
  pub add_oid : Oid → Option Bytes
  pub add_asn1_uint64 : ℕ → Bytes
  pub add_asn1_int64 : ℤ → Bytes
  pub add_boolean : Bool → Bytes
  pub add_bit_string : Bytes → Option Bytes
  -- String.
  pub read_uint16 : Bytes → Option (ℕ × Bytes)
  pub read_uint48 : Bytes → Option (ℕ × Bytes)
  pub read_uint64 : Bytes → Option (ℕ × Bytes)
  pub read_uint8_prefixed : Bytes → Option (Bytes × Bytes)
  pub read_uint16_prefixed : Bytes → Option (Bytes × Bytes)
  pub read_uint24_prefixed : Bytes → Option (Bytes × Bytes)
  pub read_asn1 : Tag → Bytes → Option (Bytes × Bytes)
  pub read_asn1_element : Tag → Bytes → Option (Bytes × Bytes)
  pub read_uint64_integer : Bytes → Option (ℕ × Bytes)
  pub read_oid : Bytes → Option (Oid × Bytes)
  pub read_bit_string_bytes : Bytes → Option (Bytes × Bytes)
  pub peek_tag : Tag → Bytes → Bool

-- A length prefix: what it adds is read back, with whatever follows, and is longer than its child.
pub record IsPrefix (bits : ℕ) (add : Bytes → Option Bytes) (read : Bytes → Option (Bytes × Bytes))
    : Type 0 where
  pub fits : (c : Bytes) → length c < 2 ^ bits → (bs : Bytes) × (add c ≡ some bs)
  pub back : (c bs rest : Bytes) → add c ≡ some bs → read (bs ++ rest) ≡ some (c, rest)
  pub more : (s c rest : Bytes) → read s ≡ some (c, rest) → length rest < length s

pub record IsFixed (bits : ℕ) (add : ℕ → Bytes) (read : Bytes → Option (ℕ × Bytes)) : Type 0 where
  pub back : (v : ℕ) (rest : Bytes) → v < 2 ^ bits → read (add v ++ rest) ≡ some (v, rest)
  pub more : (s : Bytes) (v : ℕ) (rest : Bytes) → read s ≡ some (v, rest) → length rest < length s
  pub small : (s : Bytes) (v : ℕ) (rest : Bytes) → read s ≡ some (v, rest) → v < 2 ^ bits

-- What the documentation says of the numbers and of the length prefixes: big-endian, of fixed
-- length.
pub record IsCryptobyte (cb : Cryptobyte) : Type 0 where
  pub uint16 : IsFixed 16 cb.add_uint16 cb.read_uint16
  pub uint48 : IsFixed 48 cb.add_uint48 cb.read_uint48
  pub uint64 : IsFixed 64 cb.add_uint64 cb.read_uint64
  pub uint8_prefixed : IsPrefix 8 cb.add_uint8_prefixed cb.read_uint8_prefixed
  pub uint16_prefixed : IsPrefix 16 cb.add_uint16_prefixed cb.read_uint16_prefixed
  pub uint24_prefixed : IsPrefix 24 cb.add_uint24_prefixed cb.read_uint24_prefixed

-- What keeps the bytes from being built.
pub data BuildError : Type 0 where
  too_long bad_oid bad_time bad_public_key bad_name bad_key_usage : BuildError
  invalid_serial empty_proof unused_bit_set : BuildError

abbrev pub Build : Type 0
Build = Outcome BuildError Bytes

infixr 6 ◌+++◌
-- One addition after another.
abbrev pub ◌+++◌ : Build → Build → Build
a +++ b = do x ← a; y ← b; ok (x ++ y)

-- An element around what its child adds.
abbrev pub around : (Bytes → Option Bytes) → Build → Build
around add child = do c ← child; found BuildError.too_long (add c)

abbrev pub oid_of : Cryptobyte → Oid → Build
oid_of cb oid = found BuildError.bad_oid (cb.add_oid oid)

-- What the documentation says of DER elements, and of the lengths that stand before a child: an
-- element is read back as its contents or as a whole, reading depends on no byte after it, and
-- short lengths are one byte.
pub record IsDer (cb : Cryptobyte) : Type 0 where
  pub contents :
      (t : Tag) (c bs rest : Bytes)
      → cb.add_asn1 t c ≡ some bs
      → cb.read_asn1 t (bs ++ rest) ≡ some (c, rest)
  pub element :
      (t : Tag) (c bs rest : Bytes)
      → cb.add_asn1 t c ≡ some bs
      → cb.read_asn1_element t (bs ++ rest) ≡ some (bs, rest)
  pub peek :
      (t : Tag) (c bs rest : Bytes) → cb.add_asn1 t c ≡ some bs → cb.peek_tag t (bs ++ rest) ≡ true
  pub no_lookahead :
      (t : Tag) (s c rest more : Bytes)
      → cb.read_asn1 t s ≡ some (c, rest)
      → cb.read_asn1 t (s ++ more) ≡ some (c, rest ++ more)
  pub uint64 :
      (v : ℕ) (rest : Bytes)
      → v < 2 ^ 64
      → cb.read_uint64_integer (cb.add_asn1_uint64 v ++ rest) ≡ some (v, rest)
  pub octets : (c : Bytes) → length c ≡ 32 → cb.add_asn1 Tag.octet_string c ≡ some (4 ∷ 32 ∷ c)
  pub prefix :
      (c bs : Bytes)
      → cb.add_uint16_prefixed c ≡ some bs
      → (length c < 2 ^ 16) × (bs ≡ big_endian 2 (length c) ++ c)
  pub number : (v : ℕ) → v < 2 ^ 16 → cb.add_uint16 v ≡ big_endian 2 v

-- The parts of an addition that succeeded.
pub +++-ok :
    (a b : Build) (z : Bytes)
    → a +++ b ≡ ok z
    → (x : Bytes) × (y : Bytes) × (a ≡ ok x) × (b ≡ ok y) × (x ++ y ≡ z)
+++-ok a b z e =
    let (x, ea, f) = >>=-eq-ok a _ e in let (y, eb, g) = >>=-eq-ok b _ f in (x, y, ea, eb, cc)

pub around-ok :
    (add : Bytes → Option Bytes) (child : Build) (z : Bytes)
    → around add child ≡ ok z
    → (c : Bytes) × (child ≡ ok c) × (add c ≡ some z)
around-ok add child z e =
    let (c, ec, f) = >>=-eq-ok child _ e in (c, ec, found-some BuildError.too_long (add c) z f)
