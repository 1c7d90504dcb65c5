-- ===== src/Tests/Ratelimit.antt =====
-- Calls of `Allow` of internal/ratelimit/limiter.go and of `Add` and `Total` of
-- internal/ratelimit/quota.go at a few times.
use llm_guardrail_gateway.Base.{
  true, none, some, ◌^◌, ◌<◌, pos, ℕ, ◌≤◌, Bytes, codes, List, [], ◌∷◌, length, ◌≡◌, refl, ap,
  arith,
}
use llm_guardrail_gateway.Ratelimit.Quota.Sums.{Charge, charged, IsOnDay, add_all, add_all-total}
use llm_guardrail_gateway.Ratelimit.Quota.{total}
use llm_guardrail_gateway.Ratelimit.Limiter.Again.{after_all, allow-again}
use llm_guardrail_gateway.Ratelimit.Limiter.Runs.{allow_all, allow_all-limit}
use llm_guardrail_gateway.Ratelimit.Limiter.Times.{in_window, Increasing}
use llm_guardrail_gateway.Ratelimit.Limiter.{Keys, allow}

abbrev to_number : ℕ → ℕ
to_number t = t

abbrev tostring : ℕ → Bytes
tostring t = t ∷ []

abbrev times : List ℕ
times = 1 ∷ 2 ∷ 3 ∷ 12 ∷ []

abbrev keys : Keys
keys key = record { members = []; expires = 0 }

head_or : List ℕ → ℕ
head_or [] = 0
head_or (x ∷ xs) = x

tostring_distinct : (a b : ℕ) → tostring a ≡ tostring b → a ≡ b
unfolding head_or
tostring_distinct a b e = ap head_or e

times-Increasing : Increasing 0 times
times-Increasing = (omega arith, (omega arith, (omega arith, (omega arith, tt))))

allow_all-limit_example :
    length (in_window 10 12 (allow_all to_number tostring 2 10 (codes "dev") keys [] times)) ≤ 2
allow_all-limit_example =
    allow_all-limit to_number tostring 2 10 (codes "dev") (λ t. Unit {0}) (λ t h. refl)
      (λ t h. refl) (λ a b h k e. tostring_distinct a b e) (omega arith) keys refl times
      times-Increasing (tt, (tt, (tt, (tt, tt)))) 12

-- The last of the requests is out of the window at 22.
allow-again_example :
    (allow to_number tostring
      (pos 2)
      10
      22
      true
      (after_all to_number tostring 2 10 (codes "dev") keys times)
      (codes "dev")).1
    ≡ some (true, pos 1)
allow-again_example =
    allow-again to_number tostring 2 10 (codes "dev") 22 keys times (omega arith) refl tt
      (omega arith, (omega arith, (omega arith, (omega arith, tt))))

abbrev day_of : ℕ → Bytes
day_of now = codes "2024-05-01"

-- two tenants, one of them twice
abbrev charges : List Charge
charges = (codes "dev", 3, 10) ∷ (codes "acme-corp", 5, 20) ∷ (codes "dev", 4, 30) ∷ []

-- a tenant's charges are parts of 12
charged-lt : (t : Bytes) → charged t charges < 2 ^ 63
charged-lt t = ground arith

on_day : (now : ℕ) → now ≤ 40 → IsOnDay day_of (codes "2024-05-01") 0 now
on_day now h = (refl, omega arith, omega (arith, h))

add_all-total_example :
    total day_of 40 true
      (add_all day_of (codes "2024-05-01") 0 (pos 100) (λ k. none) charges)
      (codes "dev")
    ≡ some (pos (charged (codes "dev") charges))
add_all-total_example =
    add_all-total day_of (codes "2024-05-01") 0 (pos 100) charges
      (on_day 10 (omega arith), (on_day 20 (omega arith), (on_day 30 (omega arith), tt))) charged-lt
      (codes "dev") 40 (on_day 40 (omega arith))
