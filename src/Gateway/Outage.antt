-- ===== src/Gateway/Outage.antt =====
-- internal/gateway/gateway.go: requests while Redis does not answer.
use llm_guardrail_gateway.Base.{
  ℕ, ℤ, Bytes, Option, none, some, false, [], ◌≡◌, inl, inr, refl, Bool-cases, Option-cases,
}
use llm_guardrail_gateway.Gateway.Auth.{authenticate}
use llm_guardrail_gateway.Dsl.Runtime.{Runtime}
use llm_guardrail_gateway.Gateway.Handlers.{
  daily_tokens, eval_policy, screen, screened, answer, charge, handle_complete, handle_stream,
  stream,
}
use llm_guardrail_gateway.Gateway.Middleware.{
  Connection, is_exempt, route, limit_rate, limit_tokens, admit, serve,
}
use llm_guardrail_gateway.Gateway.Server.{Request, Reply, Server, World}
use llm_guardrail_gateway.Gateway.Wiring.{RedisState, limiter_on, quota_on, minute}
use llm_guardrail_gateway.Ratelimit.Limiter.{limiter, allow}
use llm_guardrail_gateway.Ratelimit.Quota.{quota, check, add, total}
use llm_guardrail_gateway.Base.Result.{Result, ok, err, Result-cases}
use llm_guardrail_gateway.Gateway.Server.{GenerateError, GenerateResult, timeout, failed}
use llm_guardrail_gateway.Gateway.Handlers.{read_prompt}

-- the server without Redis
abbrev pub without_redis : {rt : Runtime} → Server rt RedisState → Server rt RedisState
without_redis s = record s { limiter = none; quota = none }

module _ (to_number : ℕ → ℕ) (tostring day_of : ℕ → Bytes) (per_minute daily : ℤ) where
  -- the server on a Redis that does not answer
  abbrev pub cut_off : {rt : Runtime} → ℕ → Server rt RedisState → Server rt RedisState
  cut_off now s = record s {
    limiter = some (limiter_on (limiter to_number tostring per_minute minute now false));
    quota = some (quota_on (quota day_of daily now false));
  }

  module _ (rt : Runtime) (from_int : ℤ → rt.Float) (decode : Bytes → Option Bytes)
      (quote : Bytes → Bytes) (now : ℕ) (s : Server rt RedisState) (req_id : Bytes) where
    admit_unanswered :
        (w : World RedisState) (t : Bytes)
        → admit rt RedisState from_int decode quote (cut_off now s) w t req_id
          ≡ admit rt RedisState from_int decode quote (without_redis s) w t req_id
    unfolding admit limit_rate limit_tokens allow check
    admit_unanswered w t = refl

    screen_unanswered :
        (redis : RedisState) (t prompt : Bytes)
        → screen rt RedisState from_int decode quote (cut_off now s) redis t req_id prompt
          ≡ screen rt RedisState from_int decode quote (without_redis s) redis t req_id prompt
    unfolding screen eval_policy daily_tokens total
    screen_unanswered redis t prompt = refl

    answer_unanswered :
        (w : World RedisState) (t prompt : Bytes) (g : Result GenerateError GenerateResult)
        → answer rt RedisState from_int decode quote (cut_off now s) w t req_id prompt g
          ≡ answer rt RedisState from_int decode quote (without_redis s) w t req_id prompt g
    unfolding answer charge add
    answer_unanswered w t prompt (ok g) = refl
    answer_unanswered w t prompt (err timeout) = refl
    answer_unanswered w t prompt (err failed) = refl

    prompt_unanswered :
        (r : Request)
        → read_prompt rt RedisState from_int decode quote (cut_off now s) req_id r
          ≡ read_prompt rt RedisState from_int decode quote (without_redis s) req_id r
    unfolding read_prompt
    prompt_unanswered r = refl

    screened_unanswered :
        (w : World RedisState) (t prompt : Bytes)
        (next next' : World RedisState → World RedisState × Reply rt)
        → ((w' : World RedisState) → next w' ≡ next' w')
        → screened rt RedisState from_int decode quote (cut_off now s) w t req_id prompt next
          ≡ screened rt RedisState from_int decode quote (without_redis s) w t req_id prompt next'
    unfolding screened screen eval_policy total
    screened_unanswered w t prompt next next' same =
        let clean = screen_unanswered w.redis t prompt in
        elim (Option-cases
          (screen rt RedisState from_int decode quote (without_redis s) w.redis t req_id
            prompt).1) [
              | inl e ↦ rw (screened, clean, e) (same _)
              | inr (reply, e) ↦ rw (screened, clean, e) refl
            ]

    complete_unanswered :
        (w : World RedisState) (t : Bytes) (r : Request)
        → handle_complete rt RedisState from_int decode quote (cut_off now s) w t req_id r
          ≡ handle_complete rt RedisState from_int decode quote (without_redis s) w t req_id r
    unfolding handle_complete
    complete_unanswered w t r =
        elim (Result-cases
          (read_prompt rt RedisState from_int decode quote (without_redis s) req_id r)) [
            | inl (reply, e) ↦ rw (handle_complete, prompt_unanswered r, e) refl
            | inr (prompt, e) ↦
                rw (handle_complete, prompt_unanswered r, e)
                  (screened_unanswered w t prompt _ _
                    (λ w'. answer_unanswered w' t prompt (s.generate prompt)))
          ]

    stream_unanswered :
        (w : World RedisState) (t : Bytes) (r : Request) (c : Connection)
        → handle_stream rt RedisState from_int decode quote
            (cut_off now s)
            w
            t
            req_id
            r
            c.client
            c.can_flush
            c.start
            c.ticks
          ≡ handle_stream rt RedisState from_int decode quote
              (without_redis s)
              w
              t
              req_id
              r
              c.client
              c.can_flush
              c.start
              c.ticks
    unfolding handle_stream
    stream_unanswered w t r c =
        elim (Result-cases
          (read_prompt rt RedisState from_int decode quote (without_redis s) req_id r)) [
            | inl (reply, e) ↦ rw (handle_stream, prompt_unanswered r, e) refl
            | inr (prompt, e) ↦
                rw (handle_stream, prompt_unanswered r, e)
                  (screened_unanswered w t prompt _ _ (λ w'. unfold stream in refl))
          ]

    route_unanswered :
        (w : World RedisState) (t : Bytes) (r : Request) (c : Connection)
        → route rt RedisState from_int decode quote (cut_off now s) w t req_id r c
          ≡ route rt RedisState from_int decode quote (without_redis s) w t req_id r c
    unfolding route
    route_unanswered w t r c = rw (route, complete_unanswered w t r, stream_unanswered w t r c) refl

    -- While Redis does not answer, the gateway fails open: with the rate limiter and the quota, it
    -- serves every request exactly as it does with neither of them, in its reply, its counters, its
    -- calls of the provider and the state of Redis.
    pub serve_unanswered :
        (w : World RedisState) (r : Request) (c : Connection)
        → serve rt RedisState from_int decode quote (cut_off now s) w req_id r c
          ≡ serve rt RedisState from_int decode quote (without_redis s) w req_id r c
    unfolding serve
    serve_unanswered w r c = elim (Bool-cases (is_exempt r.path)) [
      | inl e ↦ rw (serve, e, route_unanswered w [] r c) refl
      | inr e ↦ elim (Option-cases (authenticate s.auth_store r.authorization)) [
        | inl a ↦ rw (serve, e, a) refl
        | inr (tenant, a) ↦
            let same = admit_unanswered w tenant.id in
            elim (Result-cases
              (admit rt RedisState from_int decode quote (without_redis s) w tenant.id req_id)) [
                | inl (stop, f) ↦ rw (serve, e, a, same, f) refl
                | inr (w', f) ↦ rw (serve, e, a, same, f, route_unanswered w' tenant.id r c) refl
              ]
      ]
    ]
