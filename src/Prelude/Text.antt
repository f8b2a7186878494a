-- ===== src/Prelude/Text.antt =====
-- Texts as the bytes of their ASCII characters, and comparison of byte strings.
use Prim.Native.Nat.{ℕ}
use Prim.Native.Char.{code}
use Prim.Native.String.{String}
use mathlib.Core.Path.{◌≡◌, refl, ap₂}
use mathlib.Core.Bool.{Bool, true, false, ◌&&◌}
use mathlib.Core.List.{List, [], ◌∷◌}
use merkle_tree_certs.Prelude.Tests.{◌==◌, ==_iff, Bool-cases}
use mathlib.Core.Logic.{inl, inr}

abbrev pub codes : String → List ℕ
codes String.[] = []
codes (String.◌∷◌ c s) = code c ∷ codes s

abbrev pub bytes_eq : List ℕ → List ℕ → Bool
bytes_eq [] [] = true
bytes_eq [] (y ∷ ys) = false
bytes_eq (x ∷ xs) [] = false
bytes_eq (x ∷ xs) (y ∷ ys) = (x == y) && bytes_eq xs ys

pub bytes_eq_refl : (xs : List ℕ) → bytes_eq xs xs ≡ true
bytes_eq_refl [] = refl
bytes_eq_refl (x ∷ xs) = rw ((==_iff x x).1 refl) (bytes_eq_refl xs)

pub bytes_eq→≡ : (xs ys : List ℕ) → bytes_eq xs ys ≡ true → xs ≡ ys
bytes_eq→≡ [] [] e = refl
bytes_eq→≡ [] (y ∷ ys) e = cc
bytes_eq→≡ (x ∷ xs) [] e = cc
bytes_eq→≡ (x ∷ xs) (y ∷ ys) e = elim (Bool-cases (x == y)) [
  | inl t ↦ ap₂ (λ a b. a ∷ b) ((==_iff x y).0 t) (bytes_eq→≡ xs ys (rw t at e))
  | inr f ↦ let bad : false ≡ true = rw f at e in cc
]
