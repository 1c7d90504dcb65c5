-- ===== src/Base/Text.antt =====
-- Go strings and byte slices: lists of bytes. A literal is written by its code points, which are
-- its bytes as long as it is ASCII.
use Prim.Native.Char.{code}
use Prim.Native.Nat.{ℕ}
use Prim.Native.String.{String}
use mathlib.Core.Bool.{Bool, true, false, ◌&&◌}
use mathlib.Core.List.{List, [], ◌∷◌}
use mathlib.Core.Logic.{◌↔◌}
use mathlib.Core.Option.{Option, none, some}
use mathlib.Core.Path.{◌≡◌, sym, ◌∙◌}
use native.Mathlib.Omega.{arith}
use llm_guardrail_gateway.Base.Tests.{◌==◌, if◌then◌else◌}

abbrev pub Bytes : Type 0
Bytes = List ℕ

abbrev pub codes : String → Bytes
codes String.[] = []
codes (String.◌∷◌ c s) = code c ∷ codes s

-- `==` on strings
unfoldable pub equal : Bytes → Bytes → Bool
equal [] [] = true
equal [] (d ∷ t) = false
equal (c ∷ s) [] = false
equal (c ∷ s) (d ∷ t) = c == d && equal s t

pub equal_iff : (s t : Bytes) → (equal s t ≡ true) ↔ (s ≡ t)
unfolding equal
equal_iff [] [] = ground arith
equal_iff [] (d ∷ t) = ground arith
equal_iff (c ∷ s) [] = ground arith
equal_iff (c ∷ s) (d ∷ t) = ground (arith, equal_iff s t)

-- `strings.HasPrefix` and `bytes.HasPrefix`
unfoldable pub has_prefix : Bytes → Bytes → Bool
has_prefix s [] = true
has_prefix [] (p ∷ ps) = false
has_prefix (c ∷ s) (p ∷ ps) = c == p && has_prefix s ps

-- Go's `m[key]` on a map that is written as a literal: the value, or none if the key is missing.
unfoldable pub lookup {ℓ} : {V : Type ℓ} → Bytes → List (Bytes × V) → Option V
lookup key [] = none
lookup key ((k, v) ∷ rest) = if equal key k then some v else lookup key rest

-- The longest front of `s` whose bytes pass `p`, and what follows it.
unfoldable pub take_while : (ℕ → Bool) → Bytes → Bytes
take_while p [] = []
take_while p (c ∷ cs) = if p c then c ∷ take_while p cs else []

unfoldable pub drop_while : (ℕ → Bool) → Bytes → Bytes
drop_while p [] = []
drop_while p (c ∷ cs) = if p c then drop_while p cs else c ∷ cs

-- No text is two different literals.
pub apart {ℓ} : {A : Type ℓ} (s a b : Bytes) → equal a b ≡ false → s ≡ a → s ≡ b → A
apart s a b ne e f = absurd (false-ne-true (sym ne ∙ (equal_iff a b).1 (sym e ∙ f)))
  where
    false-ne-true : false ≡ true → ⊥
    false-ne-true h = cc
