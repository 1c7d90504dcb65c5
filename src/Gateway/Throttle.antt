-- ===== src/Gateway/Throttle.antt =====
-- internal/gateway/gateway.go with internal/ratelimit/limiter.go: how many prompts of a tenant reach
-- the provider in a minute.
pub mod Bound
use llm_guardrail_gateway.Base.{
  ℕ, ◌+◌, ◌-◌, ◌≤◌, ◌<◌, ℤ, pos, Bytes, equal, equal_iff, Bool, true, false, ◌&&◌, Option, none,
  some, List, [], ◌∷◌, ◌++◌, All, length, ltb, leb, ◌≡◌, ◌≢◌, ◌⊎◌, inl, inr, refl, ap, sym, subst,
  ◌∙◌, arith, Bool-cases, Option-cases, if◌then◌else◌,
}
use llm_guardrail_gateway.Config.Load.{Config}
use llm_guardrail_gateway.Dsl.Runtime.{Runtime}
use llm_guardrail_gateway.Gateway.Auth.{Tenant, authenticate, default_store}
use llm_guardrail_gateway.Gateway.Handlers.{charge}
use llm_guardrail_gateway.Gateway.Middleware.{is_exempt, serve}
use llm_guardrail_gateway.Gateway.Server.{Bundle, Limiter, World}
use llm_guardrail_gateway.Gateway.Untouched.{caller, serve_uncounted, serve_counted}
use llm_guardrail_gateway.Gateway.Wiring.{
  RedisState, minute, limiter_on, Parts, Arrival, has_redis, new_server,
}
use llm_guardrail_gateway.Ratelimit.Limiter.Bound.{serve_all, serve_all-limit}
use llm_guardrail_gateway.Ratelimit.Limiter.Keys.{
  key_of, scripted, allow-own, allow-other, allow_refused, serve_all-append,
}
use llm_guardrail_gateway.Ratelimit.Limiter.Times.{in_window, in_window-append, Increasing}
use llm_guardrail_gateway.Ratelimit.Limiter.{ttl_of, SortedSet, Keys, script, limiter}

abbrev pub times_of : List Arrival → List ℕ
times_of [] = []
times_of (a ∷ more) = a.now ∷ times_of more

-- The request carries a key of the tenant.
unfoldable pub is_from : Bytes → Arrival → Bool
is_from tenant_id a = elim (authenticate default_store a.request.authorization) [
  | none ↦ false
  | some tenant ↦ equal tenant.id tenant_id
]

-- the times of the requests that the limiter counts for the tenant
unfoldable counted_for : Bytes → Option Tenant → ℕ → List ℕ → List ℕ
counted_for tenant_id none now rest = rest
counted_for tenant_id (some tenant) now rest =
    if equal tenant.id tenant_id then now ∷ rest else rest

unfoldable calls : Bytes → List Arrival → List ℕ
unfolding counted_for
calls tenant_id [] = []
calls tenant_id (a ∷ more) =
    counted_for tenant_id (caller default_store a.request) a.now (calls tenant_id more)

calls-sub :
    (P : ℕ → Type 0) (tenant_id : Bytes) (more : List Arrival)
    → All P (times_of more)
    → All P (calls tenant_id more)
unfolding calls counted_for
calls-sub P tenant_id [] h = tt
calls-sub P tenant_id (a ∷ more) (h, hs) =
    let rest = calls-sub P tenant_id more hs in
    elim (Option-cases (caller default_store a.request)) [
      | inl e ↦ rw e rest
      | inr (tenant, e) ↦ elim (Bool-cases (equal tenant.id tenant_id)) [
        | inl same ↦ rw (e, same) (h, rest)
        | inr other ↦ rw (e, other) rest
      ]
    ]

Increasing-later : (a b : ℕ) (ts : List ℕ) → a ≤ b → Increasing b ts → Increasing a ts
Increasing-later a b [] le h = tt
Increasing-later a b (t ∷ ts) le (lt, h) = (omega (arith, le, lt), h)

calls-Increasing :
    (last : ℕ) (tenant_id : Bytes) (more : List Arrival)
    → Increasing last (times_of more)
    → Increasing last (calls tenant_id more)
unfolding calls counted_for
calls-Increasing last tenant_id [] h = tt
calls-Increasing last tenant_id (a ∷ more) (lt, h) =
    let rest = calls-Increasing a.now tenant_id more h in
    let later = Increasing-later last a.now (calls tenant_id more) (omega (arith, lt)) rest in
    elim (Option-cases (caller default_store a.request)) [
      | inl e ↦ rw e later
      | inr (tenant, e) ↦ elim (Bool-cases (equal tenant.id tenant_id)) [
        | inl same ↦ rw (e, same) (lt, rest)
        | inr other ↦ rw (e, other) later
      ]
    ]

in_window-cons :
    (window u now : ℕ) (b : Bool) (xs ys : List ℕ)
    → length (in_window window u xs) ≤ length (in_window window u ys)
    → length (in_window window u (if b then now ∷ xs else xs))
      ≤ length (in_window window u (now ∷ ys))
in_window-cons window u now true xs ys h = ground (arith, h)
in_window-cons window u now false xs ys h = ground (arith, h)

module _ (rt : Runtime) (from_int : ℤ → rt.Float) (decode : Bytes → Option Bytes)
    (quote : Bytes → Bytes) (parts : Parts rt) (cfg : Config) (connects : Bool)
    (watcher : Option (Option (Bundle rt))) (tenant_id : Bytes) where
  abbrev served : World RedisState → Arrival → World RedisState
  served w a =
      (serve rt RedisState from_int decode quote (new_server rt parts cfg connects watcher a.now) w
        a.req_id a.request a.connection).0

  -- The requests come one after the other: the times of those with the tenant's key at which a
  -- prompt went to the provider.
  unfoldable pub asked_at : World RedisState → List Arrival → List ℕ
  unfolding is_from
  asked_at w [] = []
  asked_at w (a ∷ more) =
      let rest = asked_at (served w a) more in
      if is_from tenant_id a && ltb (length w.asked) (length (served w a).asked)
      then a.now ∷ rest
      else rest

  -- the script's part of Redis for the tenant
  abbrev own : World RedisState → SortedSet
  own w = w.redis.keys (key_of tenant_id)

  abbrev run : ℤ → SortedSet → List ℕ → List ℕ
  run limit set times =
      serve_all parts.to_number parts.tostring limit minute (ttl_of minute) set [] times

  charge-keys :
      (now : ℕ) (redis : RedisState) (id : Bytes) (n : ℕ)
      → (charge rt RedisState from_int decode quote
          (new_server rt parts cfg connects watcher now).quota
          redis
          id
          n).keys
        ≡ redis.keys
  unfolding charge new_server
  charge-keys now redis id n = elim (Bool-cases (has_redis rt parts cfg connects watcher)) [
    | inl e ↦ rw e refl
    | inr e ↦ rw e refl
  ]

  -- the limiter that a request meets
  abbrev limiter_at : ℕ → Limiter RedisState
  limiter_at now =
      limiter_on (limiter parts.to_number parts.tostring cfg.rate_limit_per_minute minute now true)

  module _ (on : has_redis rt parts cfg connects watcher ≡ true) where
    is_limited :
        (now : ℕ) → (new_server rt parts cfg connects watcher now).limiter ≡ some (limiter_at now)
    unfolding new_server
    is_limited now = rw on refl

    uncounted :
        (w : World RedisState) (a : Arrival)
        → caller default_store a.request ≡ none
        → ((served w a).asked ≡ w.asked) × ((served w a).redis.keys ≡ w.redis.keys)
    unfolding new_server
    uncounted w a h =
        serve_uncounted rt RedisState Keys from_int decode quote
          (new_server rt parts cfg connects watcher a.now) a.req_id a.request (λ redis. redis.keys)
          (charge-keys a.now) w a.connection h

    counted :
        (w : World RedisState) (a : Arrival) (tenant : Tenant)
        → caller default_store a.request ≡ some tenant
        → ((served w a).redis.keys ≡ ((limiter_at a.now).allow w.redis tenant.id).0.keys)
          × (((served w a).asked ≡ w.asked)
              ⊎ ((n : ℤ) → ((limiter_at a.now).allow w.redis tenant.id).1 ≢ some (false, n)))
    unfolding new_server
    counted w a tenant h =
        serve_counted rt RedisState Keys from_int decode quote
          (new_server rt parts cfg connects watcher a.now) a.req_id a.request (λ redis. redis.keys)
          (charge-keys a.now) (limiter_at a.now) w a.connection tenant (is_limited a.now) h
