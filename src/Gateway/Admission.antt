-- ===== src/Gateway/Admission.antt =====
-- internal/gateway/gateway.go: which requests reach the provider.
use llm_guardrail_gateway.Base.{
  ℤ, Bytes, codes, equal, equal_iff, true, Option, some, [], ◌∷◌, ◌++◌, ◌≡◌, ◌⊎◌, inl, inr, refl,
  ap, ◌∙◌, or_iff, Bool-cases, Option-cases,
}
use llm_guardrail_gateway.Base.Result.{ok, Result-cases}
use llm_guardrail_gateway.Dsl.Runtime.{Runtime}
use llm_guardrail_gateway.Gateway.Auth.{Tenant, authenticate}
use llm_guardrail_gateway.Gateway.Handlers.{read_prompt}
use llm_guardrail_gateway.Gateway.Middleware.{
  Connection, is_exempt, route, admit, count_request, serve,
}
use llm_guardrail_gateway.Gateway.Limits.{IsWithin, admit-IsWithin, admit-err}
use llm_guardrail_gateway.Gateway.Screening.{
  IsClean, Handled, handle_complete_cases, handle_stream_cases,
}
use llm_guardrail_gateway.Gateway.Server.{Request, Reply, Server, World}

module _ (rt : Runtime) (S : Type 0) (from_int : ℤ → rt.Float) (decode : Bytes → Option Bytes)
    (quote : Bytes → Bytes) (s : Server rt S) (req_id : Bytes) (r : Request) where
  -- The request is a tenant's, within the limits, with a prompt that is not blocked, which went to
  -- the provider.
  pub record IsAdmitted (w w' : World S) : Type 0 where
    pub tenant : Tenant
    pub authenticated : authenticate s.auth_store r.authorization ≡ some tenant
    pub counted : World S
    pub within : IsWithin rt S from_int decode quote s req_id w counted tenant.id
    pub prompt : Bytes
    pub read : read_prompt rt S from_int decode quote s req_id r ≡ ok prompt
    pub clean : IsClean rt S from_int decode quote s req_id r counted.redis tenant.id prompt
    pub grown : w'.asked ≡ w.asked ++ (prompt ∷ [])

  count_request_keeps :
      (tenant_id : Bytes) (a : World S × Reply rt)
      → (count_request rt S from_int decode quote tenant_id r.path a).0.asked ≡ a.0.asked
  unfolding count_request
  count_request_keeps tenant_id (w, reply) = elim (Bool-cases (is_exempt r.path)) [
    | inl e ↦ rw e refl
    | inr e ↦ rw e refl
  ]

  pub route_exempt :
      (w : World S) (tenant_id : Bytes) (c : Connection)
      → is_exempt r.path ≡ true
      → (route rt S from_int decode quote s w tenant_id req_id r c).0.asked ≡ w.asked
  unfolding route is_exempt equal
  route_exempt w tenant_id c h = elim ((or_iff _ _).0 h) [
    | inl e ↦ let at : r.path ≡ codes "/healthz" = (equal_iff _ _).0 e in rw (route, at) refl
    | inr e ↦ let at : r.path ≡ codes "/metrics" = (equal_iff _ _).0 e in rw (route, at) refl
  ]

  route_cases :
      (w : World S) (tenant_id : Bytes) (c : Connection)
      → Handled rt S from_int decode quote s req_id r w
          (route rt S from_int decode quote s w tenant_id req_id r c).0
          tenant_id
  unfolding route
  route_cases w tenant_id c = elim (Bool-cases (equal r.path (codes "/v1/complete"))) [
    | inl e ↦
        rw (route, e) (handle_complete_cases rt S from_int decode quote s req_id r w tenant_id)
    | inr n₁ ↦ elim (Bool-cases (equal r.path (codes "/v1/stream"))) [
      | inl e ↦
          rw (route, n₁, e)
            (handle_stream_cases rt S from_int decode quote s req_id r w tenant_id c)
      | inr n₂ ↦ elim (Bool-cases (equal r.path (codes "/healthz"))) [
        | inl e ↦ rw (route, n₁, n₂, e) (inl refl)
        | inr n₃ ↦ elim (Bool-cases (equal r.path (codes "/metrics"))) [
          | inl e ↦ rw (route, n₁, n₂, n₃, e) (inl refl)
          | inr n₄ ↦ rw (route, n₁, n₂, n₃, n₄) (inl refl)
        ]
      ]
    ]
  ]

  routed :
      (w w₁ : World S) (tenant : Tenant) (c : Connection)
      → authenticate s.auth_store r.authorization ≡ some tenant
      → admit rt S from_int decode quote s w tenant.id req_id ≡ ok w₁
      → let w' =
          (count_request rt S from_int decode quote tenant.id r.path
            (route rt S from_int decode quote s w₁ tenant.id req_id r c)).0 in
        (w'.asked ≡ w.asked) ⊎ IsAdmitted w w'
  routed w w₁ tenant c e let_in =
      let within = admit-IsWithin rt S from_int decode quote s req_id w w₁ tenant.id let_in in
      let counted =
        count_request_keeps tenant.id
          (route rt S from_int decode quote s w₁ tenant.id req_id r c) in
      elim (route_cases w₁ tenant.id c) [
        | inl same ↦ inl (counted ∙ same ∙ within.unasked)
        | inr (prompt, read, clean, grown) ↦ inr (record {
          tenant = tenant;
          authenticated = e;
          counted = w₁;
          within = within;
          prompt = prompt;
          read = read;
          clean = clean;
          grown = counted ∙ grown ∙ ap (λ a. a ++ (prompt ∷ [])) within.unasked;
        })
      ]

  -- A request either leaves the prompts that went to the provider as they are, or it carries the key
  -- of a tenant, is refused by neither the rate limit nor the quota, has the method, the length and
  -- the body that the handlers ask for, and its prompt is blocked neither by the scanner nor by the
  -- policy; then its prompt, alone, goes to the provider.
  pub serve-asked :
      (w : World S) (c : Connection)
      → ((serve rt S from_int decode quote s w req_id r c).0.asked ≡ w.asked)
        ⊎ IsAdmitted w (serve rt S from_int decode quote s w req_id r c).0
  unfolding serve
  serve-asked w c = elim (Bool-cases (is_exempt r.path)) [
    | inl e ↦ inl (rw (serve, e) (route_exempt w [] c e))
    | inr n ↦ elim (Option-cases (authenticate s.auth_store r.authorization)) [
      | inl e ↦ inl (rw (serve, n, e) refl)
      | inr (tenant, e) ↦
          elim (Result-cases (admit rt S from_int decode quote s w tenant.id req_id)) [
            | inl (stop, refused) ↦ inl (
                rw (serve, n, e, refused)
                  (admit-err rt S from_int decode quote s req_id w tenant.id stop refused))
            | inr (w₁, let_in) ↦ rw (serve, n, e, let_in) (routed w w₁ tenant c e let_in)
          ]
    ]
  ]
