-- ===== src/Prelude/Outcomes.antt =====
-- What a call of a Go function comes to: a value, a returned error or a panic. `stuck` is no Go
-- behaviour: the fuel of a loop ran out before the loop ended, and theorems show that it does not.
use mathlib.Core.Path.{◌≡◌, refl, subst}
use mathlib.Core.Option.{Option, none, some}
use mathlib.Core.Bool.{Bool, true, false}

pub data Outcome {ℓ κ} (E : Type ℓ) (A : Type κ) : Type (ℓ ⊔ κ) where
  ok : A → Outcome E A
  err : E → Outcome E A
  panic : Outcome E A
  stuck : Outcome E A

infixl 5 ◌>>=◌ ◌>>◌
abbrev pub ◌>>=◌ {ℓ κ μ} :
    {E : Type ℓ} {A : Type κ} {B : Type μ} → Outcome E A → (A → Outcome E B) → Outcome E B
ok a >>= f = f a
err e >>= f = err e
panic >>= f = panic
stuck >>= f = stuck

abbrev pub ◌>>◌ {ℓ κ} : {E : Type ℓ} {B : Type κ} → Outcome E (Unit {0}) → Outcome E B → Outcome E B
m >> k = m >>= λ _. k

-- An early return of `e` unless the test holds.
abbrev pub check {ℓ} : {E : Type ℓ} → Bool → E → Outcome E (Unit {0})
check true e = ok tt
check false e = err e

-- A call that panics where it has no value.
abbrev pub must {ℓ κ} : {E : Type ℓ} {A : Type κ} → Option A → Outcome E A
must none = panic
must (some a) = ok a

-- Inversion of a block that succeeded.
pub >>=-eq-ok {ℓ κ μ} :
    {E : Type ℓ} {A : Type κ} {B : Type μ} (call : Outcome E A) (next : A → Outcome E B) {y : B}
    → (call >>= next) ≡ ok y
    → (x : A) × (call ≡ ok x) × (next x ≡ ok y)
>>=-eq-ok (ok x) next done = (x, refl, done)
>>=-eq-ok (err e) next done = cc
>>=-eq-ok panic next done = cc
>>=-eq-ok stuck next done = cc

-- What holds of a returned value holds of the value that the call is known to return.
pub ok_subst {ℓ κ μ} :
    {E : Type ℓ} {A : Type κ} (P : A → Type μ) {x y : A}
    → ◌≡◌ {A = Outcome E A} (ok x) (ok y)
    → P x
    → P y
ok_subst P {x} {y} e p = let same : x ≡ y = cc in subst P same p

-- An error where there is no value, and where there is one.
abbrev pub found {ℓ κ} : {E : Type ℓ} {A : Type κ} → E → Option A → Outcome E A
found e none = err e
found e (some a) = ok a

abbrev pub absent {ℓ κ} : {E : Type ℓ} {A : Type κ} → E → Option A → Outcome E (Unit {0})
absent e none = ok tt
absent e (some a) = err e

pub found-some {ℓ κ} :
    {E : Type ℓ} {A : Type κ} (e : E) (m : Option A) (a : A) → found e m ≡ ok a → m ≡ some a
found-some e none a h = cc
found-some e (some b) a h = cc

-- An error passed on in an error of another type.
abbrev pub lift_err {ℓ κ μ} :
    {E : Type ℓ} {F : Type κ} {A : Type μ} → (E → F) → Outcome E A → Outcome F A
lift_err f (ok a) = ok a
lift_err f (err e) = err (f e)
lift_err f panic = panic
lift_err f stuck = stuck

-- A test that was passed.
pub passed {ℓ} : {E : Type ℓ} (b : Bool) (e : E) → check b e ≡ ok tt → b ≡ true
passed true e h = refl
passed false e h = cc

pub lift_err-ok {ℓ κ μ} :
    {E : Type ℓ} {F : Type κ} {A : Type μ} (f : E → F) (m : Outcome E A) (a : A)
    → lift_err f m ≡ ok a
    → m ≡ ok a
lift_err-ok f (ok b) a e = cc
lift_err-ok f (err d) a e = cc
lift_err-ok f panic a e = cc
lift_err-ok f stuck a e = cc

-- A call that returns, with a value or an error.
abbrev pub IsReturn {ℓ κ} : {E : Type ℓ} {A : Type κ} → Outcome E A → Type 0
IsReturn (ok a) = Unit {0}
IsReturn (err e) = Unit {0}
IsReturn panic = ⊥
IsReturn stuck = ⊥

pub >>=-IsReturn {ℓ κ μ} :
    {E : Type ℓ} {A : Type κ} {B : Type μ} (call : Outcome E A) (next : A → Outcome E B)
    → IsReturn call
    → ((a : A) → call ≡ ok a → IsReturn (next a))
    → IsReturn (call >>= next)
>>=-IsReturn (ok a) next r k = k a refl
>>=-IsReturn (err e) next r k = tt
>>=-IsReturn panic next r k = absurd r
>>=-IsReturn stuck next r k = absurd r

pub found-IsReturn {ℓ κ} : {E : Type ℓ} {A : Type κ} (e : E) (m : Option A) → IsReturn (found e m)
found-IsReturn e none = tt
found-IsReturn e (some a) = tt

pub check-IsReturn {ℓ} : {E : Type ℓ} (b : Bool) (e : E) → IsReturn (check b e)
check-IsReturn true e = tt
check-IsReturn false e = tt

pub lift_err-IsReturn {ℓ κ μ} :
    {E : Type ℓ} {F : Type κ} {A : Type μ} (f : E → F) (m : Outcome E A)
    → IsReturn m
    → IsReturn (lift_err f m)
lift_err-IsReturn f (ok b) r = tt
lift_err-IsReturn f (err d) r = tt
lift_err-IsReturn f panic r = absurd r
lift_err-IsReturn f stuck r = absurd r
