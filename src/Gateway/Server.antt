-- ===== src/Gateway/Server.antt =====
-- internal/gateway/gateway.go: the server, its requests and its replies, and the parts of the
-- gateway that it calls. Logging and the histograms are left out.
use llm_guardrail_gateway.Base.{ℕ, ℤ, Bytes, Bool, Option, List}
use llm_guardrail_gateway.Base.Result.{Result}
use llm_guardrail_gateway.Dsl.Compiler.{CompiledRule}
use llm_guardrail_gateway.Dsl.Runtime.{Runtime}
use llm_guardrail_gateway.Gateway.Auth.{Store}
use llm_guardrail_gateway.Streaming.Ending.{StreamError}
use llm_guardrail_gateway.Streaming.Window.{Patterns}
use llm_guardrail_gateway.Streaming.Writer.{WindowWriter}

pub record Request : Type 0 where
  pub method : Bytes
  pub path : Bytes
  pub authorization : Bytes
  -- none where `ContentLength` is -1
  pub content_length : Option ℕ
  pub body : Bytes

-- `input.Verdict`
pub data InputVerdict : Type 0 where
  pass tagged blocked : InputVerdict

-- `GenerateResult`, with its two `int`s as their 64 bits; the model's name is only logged
pub record GenerateResult : Type 0 where
  pub text : Bytes
  pub input_tokens : ℕ
  pub output_tokens : ℕ

pub data GenerateError : Type 0 where
  timeout failed : GenerateError

-- The counters of internal/metrics that requests move, with their labels.
pub data Metric : Type 0 where
  guardrail_block : Bytes → Bytes → Metric
  policy_block : Bytes → Metric
  rate_limit_hit : Bytes → Bytes → Metric
  stream_abort : Bytes → Metric
  request : Bytes → ℕ → Bytes → Metric

-- internal/ratelimit, on a Redis in the state `S`. `none` is an error of Redis.
pub record Limiter (S : Type 0) : Type 0 where
  pub allow : S → Bytes → S × Option (Bool × ℤ)

pub record Quota (S : Type 0) : Type 0 where
  pub check : S → Bytes → Option (ℤ × Bool)
  pub add : S → Bytes → ℕ → S × Option (ℤ × Bool)
  pub total : S → Bytes → Option ℤ

module _ (rt : Runtime) where
  open rt use {Float}

  -- `input.ScanResult`; the signals are only logged
  pub record ScanResult : Type 0 where
    pub score : Float
    pub verdict : InputVerdict

  pub record Bundle : Type 0 where
    pub tenant_id : Bytes
    pub rules : List (CompiledRule rt)

  -- The JSON of a reply, or the events of a stream.
  pub data Body : Type 0 where
    error_response : Bytes → Bytes → Body
    guardrail_response : Float → Bytes → Body
    policy_response : Bytes → Bytes → Bytes → Body
    completion_response : Bytes → Bytes → Body
    health_response : Body
    event_stream : Bytes → Body
    -- what `promhttp.Handler` and the mux itself reply
    other_response : Body

  pub record Reply : Type 0 where
    pub status : ℕ
    pub body : Body

  pub record Server (S : Type 0) : Type 0 where
    pub max_body_bytes : ℤ
    pub window_size : ℤ
    pub auth_store : Store
    pub scan : Bytes → ScanResult
    -- `s.policy`: none is no watcher, and inside, a watcher without a bundle
    pub policy : Option (Option Bundle)
    pub limiter : Option (Limiter S)
    pub quota : Option (Quota S)
    pub generate : Bytes → Result GenerateError GenerateResult
    pub stream_to : Bytes → WindowWriter → WindowWriter × Option StreamError
    pub output_patterns : Patterns

-- What requests change: Redis, the counters, and the prompts that went to the provider.
pub record World (S : Type 0) : Type 0 where
  pub redis : S
  pub metrics : List Metric
  pub asked : List Bytes
