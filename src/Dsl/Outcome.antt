-- ===== src/Dsl/Outcome.antt =====
-- Postconditions of the lexer and the parser: the run kept within its fuel, and a property holds of
-- what it returns, if it returns.
use llm_guardrail_gateway.Base.{◌≡◌, ◌≢◌, refl, Bool, true, false, subst, if◌then◌else◌}
use llm_guardrail_gateway.Base.Result.{Result, ok, err, ◌>>=◌}
use llm_guardrail_gateway.Dsl.Token.{SyntaxError, out_of_fuel}

pub data Finishes {A : Type 0} (P : A → Type 0) : Result SyntaxError A → Type 0 where
  returns : {a : A} → P a → Finishes P (ok a)
  fails : {e : SyntaxError} → e ≢ out_of_fuel → Finishes P (err e)

module _ {A : Type 0} {P : A → Type 0} where
  pub Finishes-ok : {r : Result SyntaxError A} {a : A} → Finishes P r → r ≡ ok a → P a
  Finishes-ok (returns h) e = subst P (cc) h
  Finishes-ok (fails h) e = cc

  pub Finishes-ne-out_of_fuel : {r : Result SyntaxError A} → Finishes P r → r ≢ err out_of_fuel
  Finishes-ne-out_of_fuel (returns h) e = cc
  Finishes-ne-out_of_fuel (fails h) e = h (cc)

  pub Finishes-weaken :
      {Q : A → Type 0} {r : Result SyntaxError A}
      → Finishes P r
      → ((a : A) → P a → Q a)
      → Finishes Q r
  Finishes-weaken (returns {a} h) k = returns (k a h)
  Finishes-weaken (fails h) k = fails h

  pub Finishes-if :
      (b : Bool) {x y : Result SyntaxError A}
      → (b ≡ true → Finishes P x)
      → (b ≡ false → Finishes P y)
      → Finishes P (if b then x else y)
  Finishes-if true hx hy = hx refl
  Finishes-if false hx hy = hy refl

  pub Finishes-bind :
      {B : Type 0} {Q : B → Type 0} {r : Result SyntaxError A} {f : A → Result SyntaxError B}
      → Finishes P r
      → ((a : A) → P a → Finishes Q (f a))
      → Finishes Q (r >>= f)
  Finishes-bind (returns {a} h) k = k a h
  Finishes-bind (fails h) k = fails h
