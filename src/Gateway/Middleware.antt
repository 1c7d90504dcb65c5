-- ===== src/Gateway/Middleware.antt =====
-- internal/gateway/gateway.go: `withMiddleware` around the mux, with the routes of `New`.
use llm_guardrail_gateway.Base.{
  ℕ, ℤ, Bytes, codes, equal, Bool, not, ◌||◌, Option, none, some, [], ◌∷◌, ◌++◌, if◌then◌else◌,
}
use llm_guardrail_gateway.Base.Result.{Result, ok, err}
use llm_guardrail_gateway.Dsl.Runtime.{Runtime}
use llm_guardrail_gateway.Gateway.Auth.{authenticate}
use llm_guardrail_gateway.Gateway.Handlers.{handle_complete, handle_stream, write_error}
use llm_guardrail_gateway.Gateway.Server.{
  Request, rate_limit_hit, request, Limiter, Quota, health_response, other_response, Reply, Server,
  World,
}
use llm_guardrail_gateway.Streaming.Client.{Client}
use llm_guardrail_gateway.Streaming.Ending.{DrainTicks}

-- what a stream needs besides: its connection and the clock
pub record Connection : Type 0 where
  pub client : Client
  pub can_flush : Bool
  pub start : ℕ
  pub ticks : DrainTicks

unfoldable pub is_exempt : Bytes → Bool
is_exempt path = equal path (codes "/healthz") || equal path (codes "/metrics")

module _ (rt : Runtime) (S : Type 0) (from_int : ℤ → rt.Float) (decode : Bytes → Option Bytes)
    (quote : Bytes → Bytes) where
  -- the mux
  unfoldable pub route :
      Server rt S → World S → Bytes → Bytes → Request → Connection → World S × Reply rt
  route s w tenant_id req_id r c =
      if equal r.path (codes "/v1/complete")
      then handle_complete rt S from_int decode quote s w tenant_id req_id r
      else if equal r.path (codes "/v1/stream")
      then handle_stream rt S from_int decode quote s w tenant_id req_id r c.client c.can_flush
          c.start c.ticks
      else if equal r.path (codes "/healthz")
      then (w, record { status = 200; body = health_response })
      else if equal r.path (codes "/metrics")
      then (w, record { status = 200; body = other_response })
      else (w, record { status = 404; body = other_response })

  unfoldable too_many : World S → Bytes → Bytes → Bytes → Bytes → World S × Reply rt
  too_many w tenant_id kind code req_id = (
    record w { metrics = w.metrics ++ (rate_limit_hit tenant_id kind ∷ []) },
    write_error rt S from_int decode quote 429 code req_id,
  )

  -- the sliding window of requests; an error of Redis lets the request through
  unfoldable pub limit_rate :
      Option (Limiter S) → World S → Bytes → Bytes → Result (World S × Reply rt) (World S)
  unfolding too_many
  limit_rate none w tenant_id req_id = ok w
  limit_rate (some l) w tenant_id req_id =
      let (redis, answer) = l.allow w.redis tenant_id in
      let w' = record w { redis = redis } in
      elim answer [
        | none ↦ ok w'
        | some (allowed, _) ↦
            if not allowed
            then err (too_many w' tenant_id (codes "rate") (codes "rate_limit_exceeded") req_id)
            else ok w'
      ]

  -- the daily tokens; an error of Redis lets the request through
  unfoldable pub limit_tokens :
      Option (Quota S) → World S → Bytes → Bytes → Result (World S × Reply rt) (World S)
  unfolding too_many
  limit_tokens none w tenant_id req_id = ok w
  limit_tokens (some q) w tenant_id req_id = elim (q.check w.redis tenant_id) [
    | none ↦ ok w
    | some (_, under_limit) ↦
        if not under_limit
        then err (too_many w tenant_id (codes "quota") (codes "daily_quota_exceeded") req_id)
        else ok w
  ]

  -- from the resolved tenant to the handler
  unfoldable pub admit :
      Server rt S → World S → Bytes → Bytes → Result (World S × Reply rt) (World S)
  admit s w tenant_id req_id = elim (limit_rate s.limiter w tenant_id req_id) [
    | err stop ↦ err stop
    | ok w' ↦ limit_tokens s.quota w' tenant_id req_id
  ]

  -- the counter of the requests that reached a handler
  unfoldable pub count_request : Bytes → Bytes → World S × Reply rt → World S × Reply rt
  count_request tenant_id path (w, reply) =
      if is_exempt path
      then (w, reply)
      else (record w { metrics = w.metrics ++ (request tenant_id reply.status path ∷ []) }, reply)

  unfoldable pub serve : Server rt S → World S → Bytes → Request → Connection → World S × Reply rt
  unfolding count_request
  serve s w req_id r c =
      if is_exempt r.path
      then count_request [] r.path (route s w [] req_id r c)
      else elim (authenticate s.auth_store r.authorization) [
        | none ↦ (w, write_error rt S from_int decode quote 401 (codes "unauthorized") req_id)
        | some tenant ↦ elim (admit s w tenant.id req_id) [
          | err stop ↦ stop
          | ok w' ↦ count_request tenant.id r.path (route s w' tenant.id req_id r c)
        ]
      ]
