-- ===== src/Tests/Config.antt =====
-- internal/config/config.go: tests of `Load`, and the property at a concrete environment.
use llm_guardrail_gateway.Base.{
  pos, negsuc, Bytes, codes, equal, has_prefix, lookup, some, none, List, [], ◌∷◌, ◌≡◌, refl,
}
use llm_guardrail_gateway.Config.Denotation.{IsNumberOf, load-IsNumberOf}
use llm_guardrail_gateway.Config.Load.{get_env, get_env_int, get_env_int64, load}
use llm_guardrail_gateway.Config.Numbers.{
  digits_from, parse_digits, from_positive, from_negative, parse_int,
}
use llm_guardrail_gateway.Gateway.Provider.{mock_adapter, provider_name, new}
use llm_guardrail_gateway.Gateway.Auth.{trim_left, mark_length, trim_space}
use llm_guardrail_gateway.Base.Result.{ok}

abbrev variables : List (Bytes × Bytes)
variables =
    (codes "GATEWAY_MAX_BODY_BYTES", codes "+1048576")
    ∷ (codes "GATEWAY_WINDOW_SIZE", codes "-9223372036854775808")
    ∷ (codes "RATE_LIMIT_PER_MINUTE", codes "1_000")
    ∷ (codes "DAILY_TOKEN_QUOTA", codes "9223372036854775808")
    ∷ []

abbrev env : Bytes → Bytes
env key = elim (lookup key variables) [ some v ↦ v | none ↦ [] ]

numbers :
    ((load env).max_body_bytes ≡ pos 1048576)
    × ((load env).window_size ≡ negsuc 9223372036854775807)
    × ((load env).rate_limit_per_minute ≡ pos 60)
    × ((load env).daily_token_quota ≡ pos 100000)
unfolding load get_env_int get_env_int64 parse_int parse_digits digits_from from_positive
    from_negative equal lookup
numbers = (refl, refl, refl, refl)

abbrev same_case : Bytes → Bytes
same_case s = s

-- With nothing set, the gateway talks to the mock server.
unset-new : new same_case (load (λ _. [])) ≡ ok (mock_adapter (codes "http://localhost:9090"))
unfolding new load get_env provider_name trim_space trim_left mark_length equal has_prefix
unset-new = refl

load-IsNumberOf_example :
    IsNumberOf env (codes "GATEWAY_MAX_BODY_BYTES") (pos 524288) (load env).max_body_bytes
    × IsNumberOf env (codes "GATEWAY_WINDOW_SIZE") (pos 512) (load env).window_size
    × IsNumberOf env (codes "RATE_LIMIT_PER_MINUTE") (pos 60) (load env).rate_limit_per_minute
    × IsNumberOf env (codes "DAILY_TOKEN_QUOTA") (pos 100000) (load env).daily_token_quota
load-IsNumberOf_example = load-IsNumberOf env
