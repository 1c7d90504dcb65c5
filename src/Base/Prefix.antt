-- ===== src/Base/Prefix.antt =====
-- The texts that start with a given one. No part of the Go sources is modelled here.
use mathlib.Core.Bool.{true}
use mathlib.Core.List.{[], ◌∷◌, ◌++◌}
use mathlib.Core.Path.{◌≡◌, refl, ap}
use native.Mathlib.Omega.{arith}
use llm_guardrail_gateway.Base.Tests.{==_iff, and_iff}
use llm_guardrail_gateway.Base.Lists.{length, drop}
use llm_guardrail_gateway.Base.Text.{Bytes, has_prefix}

pub has_prefix-append : (p r : Bytes) → has_prefix (p ++ r) p ≡ true
unfolding has_prefix
has_prefix-append [] [] = refl
has_prefix-append [] (x ∷ r) = refl
has_prefix-append (x ∷ p) r = ground (arith, has_prefix-append p r)

pub drop-append : (p r : Bytes) → drop (length p) (p ++ r) ≡ r
drop-append [] r = refl
drop-append (x ∷ p) r = drop-append p r

pub has_prefix-split : (s p : Bytes) → has_prefix s p ≡ true → s ≡ p ++ drop (length p) s
unfolding has_prefix
has_prefix-split s [] h = refl
has_prefix-split (c ∷ s) (x ∷ p) h =
    let (same, rest) = (and_iff _ _).0 h in
    rw ((==_iff c x).0 same) (ap (λ t. x ∷ t) (has_prefix-split s p rest))
has_prefix-split [] (x ∷ p) h = cc
