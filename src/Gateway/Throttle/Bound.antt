-- ===== src/Gateway/Throttle/Bound.antt =====
-- internal/gateway/gateway.go with internal/ratelimit/limiter.go: the bound on the prompts of a tenant.
use llm_guardrail_gateway.Base.{
  ℕ, ◌-◌, ◌≤◌, ℤ, pos, Bytes, equal, equal_iff, Bool, true, false, ◌&&◌, Option, none, some, List,
  [], ◌∷◌, All, length, ltb, ◌≡◌, inl, inr, refl, ap, sym, subst, ◌∙◌, arith, Bool-cases,
  Option-cases,
}
use llm_guardrail_gateway.Config.Load.{Config}
use llm_guardrail_gateway.Dsl.Runtime.{Runtime}
use llm_guardrail_gateway.Gateway.Auth.{Tenant, Store, authenticate, default_store}
use llm_guardrail_gateway.Gateway.Middleware.{is_exempt}
use llm_guardrail_gateway.Gateway.Server.{Request, Bundle, World}
use llm_guardrail_gateway.Gateway.Throttle.{
  times_of, is_from, counted_for, calls, calls-sub, calls-Increasing, in_window-cons, served,
  asked_at, own, run, limiter_at, uncounted, counted,
}
use llm_guardrail_gateway.Gateway.Untouched.{caller}
use llm_guardrail_gateway.Gateway.Wiring.{RedisState, minute, Parts, Arrival, has_redis}
use llm_guardrail_gateway.Ratelimit.Limiter.Bound.{serve_all, serve_all-limit}
use llm_guardrail_gateway.Ratelimit.Limiter.Keys.{
  key_of, scripted, allow-own, allow-other, allow_refused, serve_all-append,
}
use llm_guardrail_gateway.Ratelimit.Limiter.Times.{in_window, Increasing}
use llm_guardrail_gateway.Ratelimit.Limiter.{SortedSet, ttl_of}

-- Nothing is logged when no prompt was added.
no_growth : (b : Bool) (n m : ℕ) → m ≡ n → b && ltb n m ≡ false
no_growth b n m h = ground arith

caller-authenticate :
    (store : Store) (r : Request) (tenant : Tenant)
    → caller store r ≡ some tenant
    → authenticate store r.authorization ≡ some tenant
unfolding caller
caller-authenticate store r tenant h = elim (Bool-cases (is_exempt r.path)) [
  | inl e ↦ cc (rw e at h)
  | inr e ↦ rw e at h
]

module _ (rt : Runtime) (from_int : ℤ → rt.Float) (decode : Bytes → Option Bytes)
    (quote : Bytes → Bytes) (parts : Parts rt) (cfg : Config) (connects : Bool)
    (watcher : Option (Option (Bundle rt))) (tenant_id : Bytes)
    (on : has_redis rt parts cfg connects watcher ≡ true) where
  abbrev next : World RedisState → Arrival → World RedisState
  next w a = served rt from_int decode quote parts cfg connects watcher tenant_id w a

  abbrev log : World RedisState → List Arrival → List ℕ
  log w arrivals = asked_at rt from_int decode quote parts cfg connects watcher tenant_id w arrivals

  abbrev set_of : World RedisState → SortedSet
  set_of w = own rt from_int decode quote parts cfg connects watcher tenant_id w

  abbrev ran : SortedSet → List ℕ → List ℕ
  ran set times =
      run rt from_int decode quote parts cfg connects watcher tenant_id cfg.rate_limit_per_minute
        set times

  abbrev IsBounded : ℕ → List ℕ → List ℕ → Type 0
  IsBounded u xs ys = length (in_window minute u xs) ≤ length (in_window minute u ys)

  -- a request that is not logged and leaves the tenant's part of Redis as it was
  module _ (w : World RedisState) (a : Arrival) (more : List Arrival) (u : ℕ)
      (ih : IsBounded u
        (log (next w a) more)
        (ran (set_of (next w a)) (calls tenant_id more))) where
    passed :
        is_from tenant_id a && ltb (length w.asked) (length (next w a).asked) ≡ false
        → (set : SortedSet) → set_of (next w a) ≡ set
        → IsBounded u (log w (a ∷ more)) (ran set (calls tenant_id more))
    unfolding asked_at
    passed silent set same =
        rw silent
          (subst (λ s. IsBounded u (log (next w a) more) (ran s (calls tenant_id more))) same ih)

    module _ (tenant : Tenant) (found : caller default_store a.request ≡ some tenant) where
      step : SortedSet × Option ℕ
      step =
          scripted parts.to_number parts.tostring cfg.rate_limit_per_minute minute a.now
            w.redis.keys tenant_id

      from_tenant : is_from tenant_id a ≡ equal tenant.id tenant_id
      unfolding is_from
      from_tenant = rw (is_from, caller-authenticate default_store a.request tenant found) refl

      keys_after :
          (next w a).redis.keys
          ≡ ((limiter_at rt from_int decode quote parts cfg connects watcher tenant_id a.now).allow
              w.redis tenant.id).0.keys
      keys_after =
          (counted rt from_int decode quote parts cfg connects watcher tenant_id on w a tenant
            found).0

      of_others :
          equal tenant.id tenant_id ≡ false
          → IsBounded u (log w (a ∷ more)) (ran (set_of w) (calls tenant_id more))
      of_others other = passed (rw (from_tenant, other) refl) (set_of w) (
          ap (λ k. k (key_of tenant_id)) keys_after
          ∙ allow-other parts.to_number parts.tostring cfg.rate_limit_per_minute minute a.now
              w.redis.keys tenant.id tenant_id
              (λ e. cc ((equal_iff tenant.id tenant_id).1 (sym e), other)))

      module _ (same : equal tenant.id tenant_id ≡ true) where
        is_own : set_of (next w a) ≡ step.0
        unfolding step
        is_own =
            let id : tenant.id ≡ tenant_id = (equal_iff _ _).0 same in
            ap (λ k. k (key_of tenant_id)) keys_after
            ∙ ap
                (λ t.
                  ((limiter_at rt from_int decode quote parts cfg connects watcher tenant_id
                        a.now).allow
                      w.redis t).0.keys
                    (key_of tenant_id))
                id
            ∙ allow-own parts.to_number parts.tostring cfg.rate_limit_per_minute minute a.now
                w.redis.keys tenant_id

        refused_silent : step.1 ≡ none → (next w a).asked ≡ w.asked
        unfolding step
        refused_silent e =
            let id : tenant.id ≡ tenant_id = (equal_iff _ _).0 same in
            elim ((counted rt from_int decode quote parts cfg connects watcher tenant_id on w a
              tenant found).1) [
                | inl kept ↦ kept
                | inr let_in ↦ absurd (
                    let_in (pos 0) (
                      ap
                        (λ t.
                          ((limiter_at rt from_int decode quote parts cfg connects watcher tenant_id
                              a.now).allow
                            w.redis t).1)
                        id
                      ∙ allow_refused parts.to_number parts.tostring cfg.rate_limit_per_minute
                          minute a.now w.redis.keys tenant_id e))
              ]

        of_tenant : IsBounded u (log w (a ∷ more)) (ran (set_of w) (a.now ∷ calls tenant_id more))
        unfolding serve_all asked_at step
        of_tenant = elim (Option-cases step.1) [
          | inl e ↦
              rw (serve_all, e)
                (passed (no_growth _ _ _ (ap length (refused_silent e))) step.0 is_own)
          | inr (n, e) ↦
              let appended =
                serve_all-append parts.to_number parts.tostring cfg.rate_limit_per_minute minute
                  (ttl_of minute) (calls tenant_id more) step.0 (a.now ∷ []) in
              rw (serve_all, e, appended, ← is_own)
                (in_window-cons minute u a.now
                  (is_from tenant_id a && ltb (length w.asked) (length (next w a).asked))
                  (log (next w a) more) (ran (set_of (next w a)) (calls tenant_id more)) ih)
        ]

  log-le :
      (arrivals : List Arrival) (w : World RedisState) (u : ℕ)
      → IsBounded u (log w arrivals) (ran (set_of w) (calls tenant_id arrivals))
  unfolding asked_at calls counted_for
  log-le [] w u = omega arith
  log-le (a ∷ more) w u =
      let ih = log-le more (next w a) u in
      elim (Option-cases (caller default_store a.request)) [
        | inl e ↦
            let (kept, keys) =
              uncounted rt from_int decode quote parts cfg connects watcher tenant_id on w a e in
            rw (calls, e)
              (passed w a more u ih (no_growth _ _ _ (ap length kept)) (set_of w)
                (ap (λ k. k (key_of tenant_id)) keys))
        | inr (tenant, e) ↦ elim (Bool-cases (equal tenant.id tenant_id)) [
          | inl same ↦ rw (calls, e, counted_for, same) (of_tenant w a more u ih tenant e same)
          | inr other ↦ rw (calls, e, counted_for, other) (of_others w a more u ih tenant e other)
        ]
      ]

  -- When Redis is configured, connects and answers, and the requests come at increasing times and
  -- find no entries of the tenant at the start, at most `RATE_LIMIT_PER_MINUTE` requests with the
  -- tenant's key in each minute bring a prompt to the provider, whatever the requests are and
  -- whichever other tenants' requests are between them, as long as the float64 of Lua holds each
  -- time, and the time a minute before it, exactly, and `tostring` writes no two times alike.
  pub asked_at-limit :
      (T : ℕ → Type 0) (limit : ℕ) (arrivals : List Arrival) (w : World RedisState)
      → ((t : ℕ) → T t → parts.to_number t ≡ t)
      → ((t : ℕ) → T t → parts.to_number (t - minute) ≡ t - minute)
      → ((a b : ℕ) → T a → T b → parts.tostring a ≡ parts.tostring b → a ≡ b)
      → cfg.rate_limit_per_minute ≡ pos limit
      → (w.redis.keys (key_of tenant_id)).members ≡ []
      → Increasing 0 (times_of arrivals)
      → All T (times_of arrivals)
      → (u : ℕ)
      → length (
          in_window minute u
            (asked_at rt from_int decode quote parts cfg connects watcher tenant_id w arrivals))
        ≤ limit
  asked_at-limit T limit arrivals w exact exact_start distinct rate empty up ts u =
      let times = calls tenant_id arrivals in
      let bounded =
        serve_all-limit parts.to_number parts.tostring T exact distinct limit minute (ttl_of minute)
          (omega arith) exact_start times (set_of w).expires (omega arith)
          (calls-Increasing 0 tenant_id arrivals up) (calls-sub T tenant_id arrivals ts) u in
      let here : length (in_window minute u (ran (set_of w) times)) ≤ limit = rw rate (
        subst
          (λ set.
            length (
              in_window minute u (
                serve_all parts.to_number parts.tostring (pos limit) minute (ttl_of minute) set []
                  times))
            ≤ limit)
          (λ i. record { members = sym empty i; expires = (set_of w).expires }) bounded) in
      omega (arith, here, log-le arrivals w u)
