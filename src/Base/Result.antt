-- ===== src/Base/Result.antt =====
-- Go's `(T, error)` pair: a value, or an error of the model's own type.
use mathlib.Core.Path.{◌≡◌, refl}
use mathlib.Core.Logic.{◌⊎◌, inl, inr}
use native.Mathlib.Omega.{arith}

pub data Result {ℓ κ} (E : Type κ) (A : Type ℓ) : Type (ℓ ⊔ κ) where
  err : E → Result E A
  ok : A → Result E A

module _ {ℓ κ} {E : Type κ} {A : Type ℓ} where
  -- `if err != nil { return err }`, and the rest of the function.
  infixl 5 ◌>>=◌
  abbrev pub ◌>>=◌ {μ} : {B : Type μ} → Result E A → (A → Result E B) → Result E B
  result >>= rest = elim result [ err why ↦ err why | ok value ↦ rest value ]

  pub ok-injective : {a b : A} → ◌≡◌ {A = Result E A} (ok a) (ok b) → a ≡ b
  ok-injective h = cc

pub bind_ok :
    {E A B : Type 0} (x : Result E A) (f : A → Result E B) (b : B)
    → (x >>= f) ≡ ok b
    → (a : A) × (x ≡ ok a) × (f a ≡ ok b)
bind_ok (ok a) f b h = (a, refl, h)
bind_ok (err e) f b h = ground arith

pub result_cases :
    {E A : Type 0} (x : Result E A) → ((e : E) × (x ≡ err e)) ⊎ ((a : A) × (x ≡ ok a))
result_cases (err e) = inl (e, refl)
result_cases (ok a) = inr (a, refl)
