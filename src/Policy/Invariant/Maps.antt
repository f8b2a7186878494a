-- ===== src/Policy/Invariant/Maps.antt =====
-- The maps of demo/policy.go: what holds of all values.
use merkle_tree_certs.Prelude.{Bool-cases, inl, inr, List, [], ◌∷◌, some, ◌≡◌, subst}
use merkle_tree_certs.Log.Hash.{Bytes}
use merkle_tree_certs.Prelude.{bytes_eq}
use merkle_tree_certs.Policy.{lookup, update}

abbrev pub Values {ℓ κ} : {A : Type ℓ} → (A → Type κ) → List (Bytes × A) → Type κ
Values P [] = Unit
Values P ((k, a) ∷ rest) = P a × Values P rest

module _ {ℓ κ} {A : Type ℓ} (P : A → Type κ) where
  pub Values-lookup :
      (key : Bytes) (m : List (Bytes × A)) (a : A) → Values P m → lookup key m ≡ some a → P a
  Values-lookup key [] a v e = cc
  Values-lookup key ((k, b) ∷ rest) a (p, v) e = elim (Bool-cases (bytes_eq key k)) [
    | inl t ↦ let here : some b ≡ some a = rw t at e in let same : b ≡ a = cc in subst P same p
    | inr f ↦ Values-lookup key rest a v (rw f at e)
  ]

  pub Values-update :
      (key : Bytes) (f : A → A) (m : List (Bytes × A))
      → ((a : A) → P a → P (f a))
      → Values P m
      → Values P (update key f m)
  Values-update key f [] keeps v = tt
  Values-update key f ((k, b) ∷ rest) keeps (p, v) = elim (Bool-cases (bytes_eq key k)) [
    | inl t ↦ rw t (keeps b p, v)
    | inr d ↦ rw d (p, Values-update key f rest keeps v)
  ]

pub Values-weaken {ℓ κ μ} :
    {A : Type ℓ} (P : A → Type κ) (Q : A → Type μ) (m : List (Bytes × A))
    → ((a : A) → P a → Q a)
    → Values P m
    → Values Q m
Values-weaken P Q [] f v = tt
Values-weaken P Q ((k, a) ∷ rest) f (p, v) = (f a p, Values-weaken P Q rest f v)
