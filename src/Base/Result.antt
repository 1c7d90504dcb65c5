-- ===== src/Base/Result.antt =====
-- Results that may be an error of type `E`, with `do`.
use mathlib.Core.Logic.{◌⊎◌, inl, inr}
use mathlib.Core.Path.{◌≡◌, refl}

pub data Result {ℓ κ} (E : Type κ) (A : Type ℓ) : Type (ℓ ⊔ κ) where
  ok : A → Result E A
  err : E → Result E A

module _ {ℓ κ μ} {E : Type κ} {A : Type ℓ} {B : Type μ} where
  infixl 5 ◌>>=◌
  abbrev pub ◌>>=◌ : Result E A → (A → Result E B) → Result E B
  err why >>= next = err why
  ok x >>= next = next x

  -- Inversion of a successful bind.
  pub bind-eq-ok :
      (m : Result E A) (next : A → Result E B) {b : B}
      → (m >>= next) ≡ ok b
      → (x : A) × (m ≡ ok x) × (next x ≡ ok b)
  bind-eq-ok (ok x) next done = (x, refl, done)
  bind-eq-ok (err why) next done = cc

pub Result-cases {ℓ κ} :
    {E : Type κ} {A : Type ℓ} (m : Result E A) → ((e : E) × (m ≡ err e)) ⊎ ((a : A) × (m ≡ ok a))
Result-cases (ok a) = inr (a, refl)
Result-cases (err e) = inl (e, refl)
