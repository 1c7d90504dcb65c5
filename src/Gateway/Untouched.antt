-- ===== src/Gateway/Untouched.antt =====
-- internal/gateway/gateway.go: the part of Redis that only the limiter writes.
use llm_guardrail_gateway.Base.{
  ℕ, ℤ, Bytes, false, [], if◌then◌else◌, Option, none, some, ◌≡◌, ◌≢◌, ◌⊎◌, inl, inr, refl, ap, sym,
  ◌∙◌, codes, equal, Bool-cases, Option-cases,
}
use llm_guardrail_gateway.Base.Result.{Result, ok, err, Result-cases}
use llm_guardrail_gateway.Dsl.Runtime.{Runtime}
use llm_guardrail_gateway.Gateway.Admission.{route_exempt, serve-asked}
use llm_guardrail_gateway.Gateway.Auth.{Store, Tenant, authenticate}
use llm_guardrail_gateway.Gateway.Charges.{handle_complete-charges}
use llm_guardrail_gateway.Gateway.Handlers.{
  read_prompt, screen, screened, charge, stream, handle_complete, handle_stream,
}
use llm_guardrail_gateway.Gateway.Middleware.{
  Connection, is_exempt, route, limit_rate, limit_tokens, admit, count_request, serve,
}
use llm_guardrail_gateway.Gateway.Server.{Request, Limiter, Quota, Reply, Server, World}

-- the tenant that a request is counted for
unfoldable pub caller : Store → Request → Option Tenant
caller store r = if is_exempt r.path then none else authenticate store r.authorization

-- `part` is what a charge of the quota does not change.
module _ (rt : Runtime) (S X : Type 0) (from_int : ℤ → rt.Float) (decode : Bytes → Option Bytes)
    (quote : Bytes → Bytes) (s : Server rt S) (req_id : Bytes) (r : Request) (part : S → X)
    (spared : (redis : S) (tenant_id : Bytes) (n : ℕ)
      → part (charge rt S from_int decode quote s.quota redis tenant_id n) ≡ part redis) where
  handle_complete-spares :
      (w : World S) (tenant_id : Bytes)
      → part (handle_complete rt S from_int decode quote s w tenant_id req_id r).0.redis
        ≡ part w.redis
  handle_complete-spares w tenant_id =
      elim (handle_complete-charges rt S from_int decode quote s req_id tenant_id r w) [
        | inl done ↦ ap part done.charged ∙ spared w.redis tenant_id _
        | inr (_, same) ↦ ap part same
      ]

  handle_stream-spares :
      (w : World S) (tenant_id : Bytes) (c : Connection)
      → (handle_stream rt S from_int decode quote s w tenant_id req_id r c.client c.can_flush
          c.start c.ticks).0.redis
        ≡ w.redis
  unfolding handle_stream screened stream
  handle_stream-spares w tenant_id c =
      elim (Result-cases (read_prompt rt S from_int decode quote s req_id r)) [
        | inl (reply, e) ↦ rw (handle_stream, e) refl
        | inr (prompt, e) ↦
            elim (Option-cases
              (screen rt S from_int decode quote s w.redis tenant_id req_id prompt).1) [
                | inl clean ↦ rw (handle_stream, e, screened, clean) refl
                | inr (reply, blocking) ↦ rw (handle_stream, e, screened, blocking) refl
              ]
      ]

  route-spares :
      (w : World S) (tenant_id : Bytes) (c : Connection)
      → part (route rt S from_int decode quote s w tenant_id req_id r c).0.redis ≡ part w.redis
  unfolding route
  route-spares w tenant_id c = elim (Bool-cases (equal r.path (codes "/v1/complete"))) [
    | inl e ↦ rw (route, e) (handle_complete-spares w tenant_id)
    | inr n₁ ↦ elim (Bool-cases (equal r.path (codes "/v1/stream"))) [
      | inl e ↦ rw (route, n₁, e) (ap part (handle_stream-spares w tenant_id c))
      | inr n₂ ↦ elim (Bool-cases (equal r.path (codes "/healthz"))) [
        | inl e ↦ rw (route, n₁, n₂, e) refl
        | inr n₃ ↦ elim (Bool-cases (equal r.path (codes "/metrics"))) [
          | inl e ↦ rw (route, n₁, n₂, n₃, e) refl
          | inr n₄ ↦ rw (route, n₁, n₂, n₃, n₄) refl
        ]
      ]
    ]
  ]

  count_request-spares :
      (tenant_id : Bytes) (a : World S × Reply rt)
      → (count_request rt S from_int decode quote tenant_id r.path a).0.redis ≡ a.0.redis
  unfolding count_request
  count_request-spares tenant_id (w, reply) = elim (Bool-cases (is_exempt r.path)) [
    | inl e ↦ rw e refl
    | inr e ↦ rw e refl
  ]

  -- Redis, where a limit has let a request through or has replied
  abbrev after : Result (World S × Reply rt) (World S) → S
  after (err stop) = stop.0.redis
  after (ok w) = w.redis

  limit_rate-after :
      (l : Limiter S) (w : World S) (tenant_id : Bytes)
      → after (limit_rate rt S from_int decode quote (some l) w tenant_id req_id)
        ≡ (l.allow w.redis tenant_id).0
  unfolding limit_rate
  limit_rate-after l w tenant_id = elim (Option-cases (l.allow w.redis tenant_id).1) [
    | inl e ↦ rw (limit_rate, e) refl
    | inr ((allowed, n), e) ↦ elim (Bool-cases allowed) [
      | inl a ↦ rw (limit_rate, e, a) refl
      | inr a ↦ rw (limit_rate, e, a) refl
    ]
  ]

  limit_tokens-after :
      (o : Option (Quota S)) (w : World S) (tenant_id : Bytes)
      → after (limit_tokens rt S from_int decode quote o w tenant_id req_id) ≡ w.redis
  unfolding limit_tokens
  limit_tokens-after none w tenant_id = refl
  limit_tokens-after (some q) w tenant_id = elim (Option-cases (q.check w.redis tenant_id)) [
    | inl e ↦ rw (limit_tokens, e) refl
    | inr ((n, under), e) ↦ elim (Bool-cases under) [
      | inl a ↦ rw (limit_tokens, e, a) refl
      | inr a ↦ rw (limit_tokens, e, a) refl
    ]
  ]

  admit-after :
      (l : Limiter S) (w : World S) (tenant_id : Bytes)
      → s.limiter ≡ some l
      → after (admit rt S from_int decode quote s w tenant_id req_id)
        ≡ (l.allow w.redis tenant_id).0
  unfolding admit
  admit-after l w tenant_id limited =
      let rate = limit_rate-after l w tenant_id in
      elim (Result-cases (limit_rate rt S from_int decode quote (some l) w tenant_id req_id)) [
        | inl (stop, e) ↦ rw (admit, limited, e) (ap after (sym e) ∙ rate)
        | inr (w₁, e) ↦
            rw (admit, limited, e)
              (limit_tokens-after s.quota w₁ tenant_id ∙ ap after (sym e) ∙ rate)
      ]

  -- A request that is not counted for a tenant asks the provider nothing and leaves Redis alone.
  pub serve_uncounted :
      (w : World S) (c : Connection)
      → caller s.auth_store r ≡ none
      → ((serve rt S from_int decode quote s w req_id r c).0.asked ≡ w.asked)
        × (part (serve rt S from_int decode quote s w req_id r c).0.redis ≡ part w.redis)
  unfolding serve caller
  serve_uncounted w c h = elim (Bool-cases (is_exempt r.path)) [
    | inl e ↦
        rw (serve, e)
          (route_exempt rt S from_int decode quote s req_id r w [] c e, route-spares w [] c)
    | inr n ↦ let refused = rw n at h in rw (serve, n, refused) (refl, refl)
  ]

  serve-spares :
      (l : Limiter S) (w : World S) (c : Connection) (tenant : Tenant)
      → s.limiter ≡ some l
      → caller s.auth_store r ≡ some tenant
      → part (serve rt S from_int decode quote s w req_id r c).0.redis
        ≡ part (l.allow w.redis tenant.id).0
  unfolding serve caller
  serve-spares l w c tenant limited h = elim (Bool-cases (is_exempt r.path)) [
    | inl e ↦ cc (rw e at h)
    | inr n ↦
        let found = rw n at h in
        let redis = admit-after l w tenant.id limited in
        elim (Result-cases (admit rt S from_int decode quote s w tenant.id req_id)) [
          | inl (stop, e) ↦ rw (serve, n, found, e) (ap part (ap after (sym e) ∙ redis))
          | inr (w₁, e) ↦
              rw (serve, n, found, e)
                (ap part (count_request-spares tenant.id _)
                  ∙ route-spares w₁ tenant.id c
                  ∙ ap part (ap after (sym e) ∙ redis))
        ]
  ]

  -- A request of a tenant goes to the limiter, and if that refuses it, it asks the provider nothing.
  pub serve_counted :
      (l : Limiter S) (w : World S) (c : Connection) (tenant : Tenant)
      → s.limiter ≡ some l
      → caller s.auth_store r ≡ some tenant
      → (part (serve rt S from_int decode quote s w req_id r c).0.redis
          ≡ part (l.allow w.redis tenant.id).0)
        × (((serve rt S from_int decode quote s w req_id r c).0.asked ≡ w.asked)
            ⊎ ((n : ℤ) → (l.allow w.redis tenant.id).1 ≢ some (false, n)))
  unfolding caller
  serve_counted l w c tenant limited h = (
    serve-spares l w c tenant limited h,
    elim (serve-asked rt S from_int decode quote s req_id r w c) [
      | inl same ↦ inl same
      | inr admitted ↦ elim (Bool-cases (is_exempt r.path)) [
        | inl e ↦ cc (rw e at h)
        | inr n ↦
            let same : admitted.tenant ≡ tenant = cc (admitted.authenticated, (rw n at h)) in
            inr (λ m. rw (← same) (admitted.within.rate l m limited))
      ]
    ],
  )
