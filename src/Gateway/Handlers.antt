-- ===== src/Gateway/Handlers.antt =====
-- internal/gateway/gateway.go: `handleComplete`, `handleStream` and `evalPolicy`. `decode` is
-- `json.Decoder.Decode` of encoding/json into a `CompletionRequest`: the prompt, or none on an error.
use llm_guardrail_gateway.Base.{
  ℕ, zero, suc, ◌+◌, ◌/◌, ◌%◌, ◌^◌, ℤ, pos, negsuc, Bytes, codes, equal, Bool, true, false, not,
  ◌||◌, ◌&&◌, Option, none, some, List, [], ◌∷◌, ◌++◌, length, take, ltb, leb, if◌then◌else◌,
}
use llm_guardrail_gateway.Base.Result.{Result, ok, err}
use llm_guardrail_gateway.Dsl.Compiler.{
  Action, block, tag, log, redact, Verdict, no_verdict, EvalContext, evaluate,
}
use llm_guardrail_gateway.Dsl.Runtime.{Runtime}
use llm_guardrail_gateway.Gateway.Server.{
  Request, blocked, GenerateResult, GenerateError, timeout, failed, Metric, guardrail_block,
  policy_block, stream_abort, Quota, Bundle, error_response, guardrail_response, policy_response,
  completion_response, event_stream, Reply, Server, World,
}
use llm_guardrail_gateway.Streaming.Client.{Client}
use llm_guardrail_gateway.Streaming.Ending.{DrainTicks, finish}
use llm_guardrail_gateway.Streaming.Writer.{new_writer}

-- `r.ContentLength > s.cfg.MaxBodyBytes`, where the length -1 is none
unfoldable pub exceeds : Option ℕ → ℤ → Bool
exceeds (some n) (pos m) = ltb m n
exceeds (some n) (negsuc m) = true
exceeds none (pos m) = false
exceeds none (negsuc m) = ltb 0 m

-- what `http.MaxBytesReader` lets through of the body
unfoldable pub limited : ℤ → Bytes → Bytes
limited (pos n) body = take n body
limited (negsuc n) body = []

-- The tokens that a completion is charged: those that the provider reports, or a quarter of the
-- bytes, and at least one. The sum of two `int`s wraps, and is negative from 2^63 on.
unfoldable pub tokens_used : ℕ → ℕ → ℕ → ℕ
tokens_used input output bytes =
    let reported = (input + output) % 2 ^ 64 in
    let used = if leb reported 0 || leb (2 ^ 63) reported then bytes / 4 else reported in
    if ltb used 1 then 1 else used

unfoldable pub is_block : Option Action → Bool
is_block (some block) = true
is_block (some tag) = false
is_block (some log) = false
is_block (some redact) = false
is_block none = false

unfoldable pub abort_metrics : Bytes → ℕ → List Metric
abort_metrics tenant_id zero = []
abort_metrics tenant_id (suc _) =
    stream_abort tenant_id ∷ guardrail_block tenant_id (codes "output") ∷ []

module _ (rt : Runtime) (S : Type 0) (from_int : ℤ → rt.Float) (decode : Bytes → Option Bytes)
    (quote : Bytes → Bytes) where
  open rt use {Float}

  -- the total for `evalPolicy`: 0 without a quota, and on an error of Redis
  unfoldable pub daily_tokens : Option (Quota S) → S → Bytes → Float
  daily_tokens none redis tenant_id = from_int (pos 0)
  daily_tokens (some q) redis tenant_id = elim (q.total redis tenant_id) [
    | some total ↦ from_int total
    | none ↦ from_int (pos 0)
  ]

  unfoldable pub eval_bundle : Option (Option (Bundle rt)) → Bytes → EvalContext rt → Verdict
  eval_bundle none tenant_id ctx = no_verdict
  eval_bundle (some none) tenant_id ctx = no_verdict
  eval_bundle (some (some b)) tenant_id ctx =
      if equal b.tenant_id tenant_id then evaluate rt b.rules ctx else no_verdict

  unfoldable pub eval_policy : Server rt S → S → Bytes → Float → Bytes → Verdict
  unfolding daily_tokens eval_bundle
  eval_policy s redis tenant_id score model = eval_bundle s.policy tenant_id (record {
    input_risk_score = score;
    request_model = model;
    tenant_daily_tokens = daily_tokens s.quota redis tenant_id;
  })

  unfoldable pub write_error : ℕ → Bytes → Bytes → Reply rt
  write_error status code req_id = record { status = status; body = error_response code req_id }

  -- from the method to the prompt, as both handlers begin
  unfoldable pub read_prompt : Server rt S → Bytes → Request → Result (Reply rt) Bytes
  read_prompt s req_id r =
      if not (equal r.method (codes "POST"))
      then err (write_error 405 (codes "method_not_allowed") req_id)
      else if exceeds r.content_length s.max_body_bytes
      then err (write_error 413 (codes "payload_too_large") req_id)
      else elim (decode (limited s.max_body_bytes r.body)) [
        | none ↦ err (write_error 400 (codes "invalid_request_body") req_id)
        | some prompt ↦
            if equal prompt []
            then err (write_error 400 (codes "prompt_required") req_id)
            else ok prompt
      ]

  -- the scan of the prompt and the policy, as both handlers go on: the counters that are moved, and
  -- the reply if the prompt is blocked
  unfoldable pub screen : Server rt S → S → Bytes → Bytes → Bytes → List Metric × Option (Reply rt)
  screen s redis tenant_id req_id prompt =
      let result = s.scan prompt in
      let verdict = eval_policy s redis tenant_id result.score (codes "mock-llm-v1") in
      let by_policy = verdict.matched && is_block verdict.action in
      elim result.verdict [
        | blocked ↦ (
          guardrail_block tenant_id (codes "input") ∷ [],
          some (record { status = 403; body = guardrail_response result.score req_id }),
        )
        | _ ↦
            if by_policy
            then (
              policy_block tenant_id ∷ [],
              some (record {
                status = 403;
                body = policy_response verdict.rule_name verdict.reason req_id;
              }),
            )
            else ([], none)
      ]

  -- the charge of the quota, whose error is only logged
  unfoldable pub charge : Option (Quota S) → S → Bytes → ℕ → S
  charge none redis tenant_id tokens = redis
  charge (some q) redis tenant_id tokens = (q.add redis tenant_id tokens).0

  -- from the reply of the provider on
  unfoldable pub answer :
      Server rt S
      → World S
      → Bytes
      → Bytes
      → Bytes
      → Result GenerateError GenerateResult
      → World S × Reply rt
  answer s w tenant_id req_id prompt (err timeout) =
      (w, write_error 504 (codes "provider_timeout") req_id)
  answer s w tenant_id req_id prompt (err failed) =
      (w, write_error 502 (codes "provider_error") req_id)
  answer s w tenant_id req_id prompt (ok g) =
      let tokens = tokens_used g.input_tokens g.output_tokens (length prompt + length g.text) in
      (
        record w { redis = charge s.quota w.redis tenant_id tokens },
        record { status = 200; body = completion_response req_id g.text },
      )

  -- `screen` and then the call of the provider, by `next`
  unfoldable pub screened :
      Server rt S
      → World S
      → Bytes
      → Bytes
      → Bytes
      → (World S → World S × Reply rt)
      → World S × Reply rt
  screened s w tenant_id req_id prompt next =
      let (metrics, reply) = screen s w.redis tenant_id req_id prompt in
      let w' = record w { metrics = w.metrics ++ metrics } in
      elim reply [ some r ↦ (w', r) | none ↦ next (record w' { asked = w.asked ++ (prompt ∷ []) }) ]

  unfoldable pub handle_complete :
      Server rt S → World S → Bytes → Bytes → Request → World S × Reply rt
  handle_complete s w tenant_id req_id r = elim (read_prompt s req_id r) [
    | err reply ↦ (w, reply)
    | ok prompt ↦
        screened s w tenant_id req_id prompt
          λ w'. answer s w' tenant_id req_id prompt (s.generate prompt)
  ]

  -- the stream, to a client that has nothing yet, with the clock at its start and around its drain
  unfoldable pub stream :
      Server rt S
      → World S
      → Bytes
      → Bytes
      → Bytes
      → Client
      → Bool
      → ℕ
      → DrainTicks
      → World S × Reply rt
  stream s w tenant_id req_id prompt client can_flush start ticks =
      let (ww, e) = s.stream_to prompt (new_writer s.window_size client can_flush start) in
      let ended = finish quote req_id s.output_patterns ww e ticks in
      (
        record w { metrics = w.metrics ++ abort_metrics tenant_id ended.aborts },
        record { status = 200; body = event_stream ended.writer.dst.sent },
      )

  unfoldable pub handle_stream :
      Server rt S
      → World S
      → Bytes
      → Bytes
      → Request
      → Client
      → Bool
      → ℕ
      → DrainTicks
      → World S × Reply rt
  handle_stream s w tenant_id req_id r client can_flush start ticks =
      elim (read_prompt s req_id r) [
        | err reply ↦ (w, reply)
        | ok prompt ↦
            screened s w tenant_id req_id prompt
              λ w'. stream s w' tenant_id req_id prompt client can_flush start ticks
      ]
