-- ===== src/Gateway/Wiring.antt =====
-- internal/gateway/gateway.go: `New`, as the server that serves at a time, and the requests that one
-- server gets. The adapters' calls, which need the network, are a parameter for each adapter; whether
-- Redis can be reached, and the bundle that the watcher of the policy file holds, are arguments.
use llm_guardrail_gateway.Base.{
  ℕ, Bytes, equal, Bool, true, not, ◌&&◌, Option, none, some, List, [], if◌then◌else◌,
}
use llm_guardrail_gateway.Base.Result.{Result, ok, err}
use llm_guardrail_gateway.Config.Load.{Config}
use llm_guardrail_gateway.Dsl.Runtime.{Runtime}
use llm_guardrail_gateway.Gateway.Auth.{default_store}
use llm_guardrail_gateway.Gateway.Middleware.{Connection}
use llm_guardrail_gateway.Gateway.Provider.{Adapter, mock_adapter, new}
use llm_guardrail_gateway.Gateway.Server.{
  Request, GenerateResult, GenerateError, Limiter, Quota, Bundle, Server,
}
use llm_guardrail_gateway.Guardrails.Arithmetic.{Arithmetic}
use llm_guardrail_gateway.Guardrails.Scanner.{scan}
use llm_guardrail_gateway.Ratelimit.Limiter.{Keys, limiter}
use llm_guardrail_gateway.Ratelimit.Quota.{Counters, quota}
use llm_guardrail_gateway.Streaming.Ending.{StreamError}
use llm_guardrail_gateway.Streaming.Patterns.{out_patterns}
use llm_guardrail_gateway.Streaming.Writer.{WindowWriter}

-- Redis, whose keys of the limiter and of the quota begin differently
pub record RedisState : Type 0 where
  pub keys : Keys
  pub counters : Counters

-- `time.Minute`
abbrev pub minute : ℕ
minute = 60000000000

-- the limiter, on its part of Redis
abbrev pub limiter_on : Limiter Keys → Limiter RedisState
limiter_on l = record {
  allow = λ redis tenant_id.
      let (keys, answer) = l.allow redis.keys tenant_id in (record redis { keys = keys }, answer);
}

-- the quota, on its part of Redis
abbrev pub quota_on : Quota Counters → Quota RedisState
quota_on q = record {
  check = λ redis tenant_id. q.check redis.counters tenant_id;
  add = λ redis tenant_id n.
      let (counters, answer) = q.add redis.counters tenant_id n in
      (record redis { counters = counters }, answer);
  total = λ redis tenant_id. q.total redis.counters tenant_id;
}

-- The provider of the configuration, or the mock server when it cannot be made.
unfoldable pub adapter_of : (Bytes → Bytes) → Config → Adapter
adapter_of to_lower cfg = elim (new to_lower cfg) [
  | ok a ↦ a
  | err e ↦ mock_adapter cfg.mock_llm_addr
]

-- what `New` takes of the packages and of Lua
pub record Parts (rt : Runtime) : Type 0 where
  pub to_number : ℕ → ℕ
  pub tostring : ℕ → Bytes
  pub day_of : ℕ → Bytes
  pub to_lower : Bytes → Bytes
  pub arithmetic : Arithmetic rt.Float
  pub shuffle : List (ℕ × ℕ) → List (ℕ × ℕ)
  pub generate : Adapter → Bytes → Result GenerateError GenerateResult
  pub stream_to : Adapter → Bytes → WindowWriter → WindowWriter × Option StreamError

-- a request, and what there is around it when it comes
pub record Arrival : Type 0 where
  pub now : ℕ
  pub req_id : Bytes
  pub request : Request
  pub connection : Connection

module _ (rt : Runtime) (parts : Parts rt) (cfg : Config) (connects : Bool)
    (watcher : Option (Option (Bundle rt))) where
  -- an address is configured, and the client connects
  abbrev pub has_redis : Bool
  has_redis = not (equal cfg.redis_addr []) && connects

  unfoldable pub new_server : ℕ → Server rt RedisState
  unfolding adapter_of
  new_server now = record {
    max_body_bytes = cfg.max_body_bytes;
    window_size = cfg.window_size;
    auth_store = default_store;
    scan = scan rt parts.arithmetic parts.shuffle;
    policy = if equal cfg.policy_file [] then none else watcher;
    limiter =
        if has_redis
        then some (
            limiter_on
              (limiter parts.to_number parts.tostring cfg.rate_limit_per_minute minute now true))
        else none;
    quota =
        if has_redis
        then some (quota_on (quota parts.day_of cfg.daily_token_quota now true))
        else none;
    generate = parts.generate (adapter_of parts.to_lower cfg);
    stream_to = parts.stream_to (adapter_of parts.to_lower cfg);
    output_patterns = out_patterns;
  }
