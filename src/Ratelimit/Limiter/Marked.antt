-- ===== src/Ratelimit/Limiter/Marked.antt =====
-- The entries of the sorted set that internal/ratelimit/limiter.go keeps: times with their members.
use llm_guardrail_gateway.Base.{
  ℕ, ◌≤◌, ◌<◌, Bytes, equal, equal_iff, true, List, [], ◌∷◌, ◌++◌, All, leb, leb→le, Bool-cases,
  inl, inr, ◌≡◌, refl, ap, arith,
}
use llm_guardrail_gateway.Ratelimit.Limiter.{remove_until, add_member}
use llm_guardrail_gateway.Ratelimit.Limiter.Times.{recent}

pub All-mono : {P Q : ℕ → Type 0} (xs : List ℕ) → ((x : ℕ) → P x → Q x) → All P xs → All Q xs
All-mono [] k h = tt
All-mono (x ∷ xs) k (p, h) = (k x p, All-mono xs k h)

pub All-recent : (P : ℕ → Type 0) (w : ℕ) (xs : List ℕ) → All P xs → All P (recent w xs)
All-recent P w [] h = tt
All-recent P w (x ∷ xs) (p, h) = elim (Bool-cases (leb x w)) [
  | inl e ↦ rw e (All-recent P w xs h)
  | inr e ↦ rw e (p, All-recent P w xs h)
]

module _ (tostring : ℕ → Bytes) where
  abbrev pub marked : List ℕ → List (ℕ × Bytes)
  marked [] = []
  marked (t ∷ ts) = (t, tostring t) ∷ marked ts

  pub remove_until-marked :
      (v w : ℕ) (xs : List ℕ) → v ≤ w → remove_until w (marked (recent v xs)) ≡ marked (recent w xs)
  unfolding remove_until
  remove_until-marked v w [] le = refl
  remove_until-marked v w (x ∷ xs) le = elim (Bool-cases (leb x v)) [
    | inl e ↦
        let old : leb x w ≡ true = ground (arith, leb→le x v e) in
        rw (e, old) (remove_until-marked v w xs le)
    | inr e ↦ elim (Bool-cases (leb x w)) [
      | inl old ↦ rw (e, old) (remove_until-marked v w xs le)
      | inr new ↦ rw (e, new) (ap (λ r. (x, tostring x) ∷ r) (remove_until-marked v w xs le))
    ]
  ]

  module _ (T : ℕ → Type 0)
      (distinct : (a b : ℕ) → T a → T b → tostring a ≡ tostring b → a ≡ b) where
    pub add_member-marked :
        (now : ℕ) (xs : List ℕ)
        → T now
        → All T xs
        → All (λ x. x < now) xs
        → add_member now (tostring now) (marked xs) ≡ marked (xs ++ (now ∷ []))
    unfolding add_member
    add_member-marked now [] t ts h = refl
    add_member-marked now (x ∷ xs) t (tx, ts) (lt, h) =
        elim (Bool-cases (equal (tostring x) (tostring now))) [
          | inl e ↦ absurd (omega (arith, lt, distinct x now tx t ((equal_iff _ _).0 e)))
          | inr n ↦ rw n (ap (λ r. (x, tostring x) ∷ r) (add_member-marked now xs t ts h))
        ]
