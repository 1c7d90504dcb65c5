-- ===== src/Gateway/Charges.antt =====
-- internal/gateway/gateway.go: what `handleComplete` charges to the tenant's quota.
use llm_guardrail_gateway.Base.{
  ℕ, ◌+◌, ◌^◌, ◌≤◌, ◌<◌, ℤ, Bytes, codes, equal, Option, some, [], length, ◌≡◌, ◌≢◌, ◌⊎◌, inl, inr,
  refl, ap, subst, arith, Bool-cases, Option-cases,
}
use llm_guardrail_gateway.Base.Result.{Result, ok, err, Result-cases}
use llm_guardrail_gateway.Dsl.Runtime.{Runtime}
use llm_guardrail_gateway.Gateway.Handlers.{
  exceeds, limited, tokens_used, write_error, read_prompt, screen, screened, charge, answer,
  handle_complete,
}
use llm_guardrail_gateway.Gateway.Screening.{by_policy, verdict_cases}
use llm_guardrail_gateway.Gateway.Server.{
  Request, GenerateResult, timeout, failed, completion_response, Reply, Server, World,
}

-- If prompt and completion have fewer than 2^63 bytes, a completion is charged at least one token,
-- and a number that an `int64` holds as it is.
pub tokens_used-bounds :
    (input output bytes : ℕ)
    → bytes < 2 ^ 63
    → (1 ≤ tokens_used input output bytes) × (tokens_used input output bytes < 2 ^ 63)
unfolding tokens_used
tokens_used-bounds input output bytes small = ground arith

module _ (rt : Runtime) (S : Type 0) (from_int : ℤ → rt.Float) (decode : Bytes → Option Bytes)
    (quote : Bytes → Bytes) (s : Server rt S) (req_id tenant_id : Bytes) (r : Request)
    (w : World S) where
  -- the text of the provider went to the client, and its tokens to the quota
  pub record IsCompleted (a : World S × Reply rt) : Type 0 where
    pub prompt : Bytes
    pub result : GenerateResult
    pub read : read_prompt rt S from_int decode quote s req_id r ≡ ok prompt
    pub generated : s.generate prompt ≡ ok result
    pub reply : a.1 ≡ record { status = 200; body = completion_response req_id result.text }
    pub charged :
        a.0.redis
        ≡ charge rt S from_int decode quote s.quota w.redis tenant_id (
            tokens_used result.input_tokens result.output_tokens
              (length prompt + length result.text))

  same_status :
      (a b : Reply rt)
      → ◌≡◌ {A = Result (Reply rt) Bytes} (err a) (err b)
      → a.status ≢ 200
      → b.status ≢ 200
  same_status a b e ne = let same : a ≡ b = cc e in subst (λ (x : Reply rt). x.status ≢ 200) same ne

  read_prompt-status :
      (reply : Reply rt)
      → read_prompt rt S from_int decode quote s req_id r ≡ err reply
      → reply.status ≢ 200
  unfolding read_prompt write_error
  read_prompt-status reply h = elim (Bool-cases (equal r.method (codes "POST"))) [
    | inr m ↦ same_status _ reply (rw (read_prompt, m) at h) (λ e. omega (arith, e))
    | inl m ↦ elim (Bool-cases (exceeds r.content_length s.max_body_bytes)) [
      | inl l ↦ same_status _ reply (rw (read_prompt, m, l) at h) (λ e. omega (arith, e))
      | inr l ↦ elim (Option-cases (decode (limited s.max_body_bytes r.body))) [
        | inl d ↦ same_status _ reply (rw (read_prompt, m, l, d) at h) (λ e. omega (arith, e))
        | inr (prompt, d) ↦ elim (Bool-cases (equal prompt [])) [
          | inl n ↦ same_status _ reply (rw (read_prompt, m, l, d, n) at h) (λ e. omega (arith, e))
          | inr n ↦ cc (rw (read_prompt, m, l, d, n) at h)
        ]
      ]
    ]
  ]

  answer_cases :
      (w₁ : World S) (prompt : Bytes)
      → w₁.redis ≡ w.redis
      → read_prompt rt S from_int decode quote s req_id r ≡ ok prompt
      → let a =
          answer rt S from_int decode quote s w₁ tenant_id req_id prompt (s.generate prompt) in
        IsCompleted a ⊎ ((a.1.status ≢ 200) × (a.0.redis ≡ w.redis))
  unfolding answer write_error
  answer_cases w₁ prompt same read = elim (Result-cases (s.generate prompt)) [
    | inl (timeout, e) ↦ rw (answer, e) (inr ((λ e. omega (arith, e)), same))
    | inl (failed, e) ↦ rw (answer, e) (inr ((λ e. omega (arith, e)), same))
    | inr (g, e) ↦
        rw (answer, e)
          (inl (record {
            prompt = prompt;
            result = g;
            read = read;
            generated = e;
            reply = refl;
            charged =
                ap
                  (λ redis.
                    charge rt S from_int decode quote s.quota redis tenant_id
                      (tokens_used g.input_tokens g.output_tokens (length prompt + length g.text)))
                  same;
          }))
  ]

  blocking_status :
      (a b : Reply rt)
      → ◌≡◌ {A = Option (Reply rt)} (some a) (some b)
      → a.status ≢ 200
      → b.status ≢ 200
  blocking_status a b e ne =
      let same : a ≡ b = cc e in subst (λ (x : Reply rt). x.status ≢ 200) same ne

  -- the replies of `screen`
  screen-status :
      (redis : S) (prompt : Bytes) (reply : Reply rt)
      → (screen rt S from_int decode quote s redis tenant_id req_id prompt).1 ≡ some reply
      → reply.status ≢ 200
  unfolding screen
  screen-status redis prompt reply h =
      elim (verdict_cases rt S from_int decode quote s req_id r (s.scan prompt).verdict) [
        | inl e ↦ blocking_status _ reply (rw (screen, e) at h) (λ e. omega (arith, e))
        | inr (inl e) ↦
            elim (Bool-cases
              (by_policy rt S from_int decode quote s req_id r redis tenant_id prompt)) [
                | inl p ↦ blocking_status _ reply (rw (screen, e, p) at h) (λ e. omega (arith, e))
                | inr p ↦ cc (rw (screen, e, p) at h)
              ]
        | inr (inr e) ↦
            elim (Bool-cases
              (by_policy rt S from_int decode quote s req_id r redis tenant_id prompt)) [
                | inl p ↦ blocking_status _ reply (rw (screen, e, p) at h) (λ e. omega (arith, e))
                | inr p ↦ cc (rw (screen, e, p) at h)
              ]
      ]

  -- `handleComplete` charges the tenant's quota exactly when the completion succeeds: either the
  -- reply is the provider's text with status 200, and the tokens of prompt and text are added once
  -- (if there is a quota), or the status is another one and Redis is left as it was.
  pub handle_complete-charges :
      let a = handle_complete rt S from_int decode quote s w tenant_id req_id r in
      IsCompleted a ⊎ ((a.1.status ≢ 200) × (a.0.redis ≡ w.redis))
  unfolding handle_complete screened
  handle_complete-charges =
      elim (Result-cases (read_prompt rt S from_int decode quote s req_id r)) [
        | inl (reply, e) ↦ rw (handle_complete, e) (inr (read_prompt-status reply e, refl))
        | inr (prompt, e) ↦
            elim (Option-cases
              (screen rt S from_int decode quote s w.redis tenant_id req_id prompt).1) [
                | inl clean ↦
                    rw (handle_complete, e, screened, clean) (answer_cases _ prompt refl e)
                | inr (reply, blocking) ↦
                    rw (handle_complete, e, screened, blocking)
                      (inr (screen-status w.redis prompt reply blocking, refl))
              ]
      ]
