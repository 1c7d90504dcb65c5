-- ===== src/Ratelimit/Limiter/Times.antt =====
-- Times of requests, and windows over them. No part of the Go sources is modelled here.
use llm_guardrail_gateway.Base.{
  ℕ, ◌-◌, ◌≤◌, ◌<◌, ◌&&◌, List, [], ◌∷◌, ◌++◌, All, length, ltb, leb, Bool-cases, inl, inr, ◌≡◌,
  refl, ap, arith, if◌then◌else◌,
}

-- the times behind `w`
abbrev pub recent : ℕ → List ℕ → List ℕ
recent w [] = []
recent w (t ∷ ts) = if leb t w then recent w ts else t ∷ recent w ts

-- the times in the window that ends with `t`
abbrev pub in_window : ℕ → ℕ → List ℕ → List ℕ
in_window window t [] = []
in_window window t (a ∷ rest) =
    if ltb (t - window) a && leb a t then a ∷ in_window window t rest else in_window window t rest

abbrev pub Increasing : ℕ → List ℕ → Type 0
Increasing last [] = Unit
Increasing last (t ∷ ts) = (last < t) × Increasing t ts

pub recent-append : (w : ℕ) (xs ys : List ℕ) → recent w (xs ++ ys) ≡ recent w xs ++ recent w ys
recent-append w [] ys = refl
recent-append w (x ∷ xs) ys = elim (Bool-cases (leb x w)) [
  | inl e ↦ rw e (recent-append w xs ys)
  | inr e ↦ rw e (ap (λ t. x ∷ t) (recent-append w xs ys))
]

pub in_window-append :
    (window t : ℕ) (xs ys : List ℕ)
    → in_window window t (xs ++ ys) ≡ in_window window t xs ++ in_window window t ys
in_window-append window t [] ys = refl
in_window-append window t (x ∷ xs) ys = elim (Bool-cases (ltb (t - window) x && leb x t)) [
  | inl e ↦ rw e (ap (λ r. x ∷ r) (in_window-append window t xs ys))
  | inr e ↦ rw e (in_window-append window t xs ys)
]

pub in_window-le-recent :
    (window t w : ℕ) (xs : List ℕ)
    → w ≤ t - window
    → length (in_window window t xs) ≤ length (recent w xs)
in_window-le-recent window t w [] h = omega arith
in_window-le-recent window t w (x ∷ xs) h = ground (arith, in_window-le-recent window t w xs h)

pub recent-nil : (w : ℕ) (xs : List ℕ) → All (λ x. x ≤ w) xs → recent w xs ≡ []
recent-nil w [] h = refl
recent-nil w (x ∷ xs) (le, h) = ground (arith, recent-nil w xs h)
