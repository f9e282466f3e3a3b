-- ===== src/Prelude/Result.antt =====
-- What a function that may raise returns, and methods that mutate an object and may raise.
use mathlib.Core.Path.{◌≡◌, refl}
use mathlib.Core.Bool.{Bool, true, false}
use rdpflux.Prelude.Tests.{if◌then◌else◌}

pub data Result {ℓ κ} (E : Type κ) (A : Type ℓ) : Type (ℓ ⊔ κ) where
  err : E → Result E A
  ok : A → Result E A

-- `if not test: raise e`
abbrev pub require {μ} : {E : Type μ} → Bool → E → Result E (Unit {0})
require b e = if b then ok tt else err e

module _ {ℓ κ μ} {A : Type ℓ} {B : Type κ} {E : Type μ} where
  infixl 5 ◌>>=◌
  abbrev pub ◌>>=◌ : Result E A → (A → Result E B) → Result E B
  err e >>= rest = err e
  ok a >>= rest = rest a

  -- Inversion of a chain that succeeded.
  pub >>=-eq-ok :
      (first : Result E A) (rest : A → Result E B) {b : B}
      → (first >>= rest) ≡ ok b
      → (a : A) × (first ≡ ok a) × (rest a ≡ ok b)
  >>=-eq-ok (err e) rest h = cc
  >>=-eq-ok (ok a) rest h = (a, refl, h)

infixl 5 ◌>>◌
abbrev pub ◌>>◌ {κ μ} : {B : Type κ} {E : Type μ} → Result E (Unit {0}) → Result E B → Result E B
first >> rest = first >>= λ _. rest

-- What a computation gives has a property, if it gives anything.
abbrev pub Yields {ℓ κ μ} : {E : Type μ} {A : Type ℓ} → (A → Type κ) → Result E A → Type (ℓ ⊔ κ ⊔ μ)
Yields {A = A} P r = (a : A) → r ≡ ok a → P a

pub Yields-require {μ} : {E : Type μ} (b : Bool) (e : E) → Yields (λ _. b ≡ true) (require b e)
Yields-require true e u h = refl
Yields-require false e u h = cc

pub ok-injective {ℓ κ} :
    {E : Type κ} {A : Type ℓ} {a b : A} → ◌≡◌ {A = Result E A} (ok a) (ok b) → a ≡ b
ok-injective e = cc e
