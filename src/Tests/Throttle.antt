-- ===== src/Tests/Throttle.antt =====
-- Requests of two tenants to the server of `New` in internal/gateway/gateway.go, with Redis.
use llm_guardrail_gateway.Base.{
  ℕ, ◌≤◌, pos, true, Bytes, codes, equal, none, List, [], ◌∷◌, length, ◌≡◌, refl, ap, arith,
}
use llm_guardrail_gateway.Base.Result.{ok}
use llm_guardrail_gateway.Config.Load
use llm_guardrail_gateway.Config.Load.{Config}
use llm_guardrail_gateway.Gateway.Middleware.{serve}
use llm_guardrail_gateway.Gateway.Outage.{cut_off, without_redis, serve_unanswered}
use llm_guardrail_gateway.Gateway.Server.{Server, Request, World}
use llm_guardrail_gateway.Gateway.Throttle.{asked_at}
use llm_guardrail_gateway.Gateway.Throttle.Bound.{asked_at-limit}
use llm_guardrail_gateway.Gateway.Wiring.{RedisState, new_server, minute, Parts, Arrival}
use llm_guardrail_gateway.Ratelimit.Limiter.Times.{in_window}
use llm_guardrail_gateway.Tests.Gateway.{from_int, decode, quote, connection, ask}
use llm_guardrail_gateway.Tests.Policy.{toy}
use llm_guardrail_gateway.Tests.Scaled.{scaled}

abbrev cfg : Config
cfg = record (Load.load (λ _. [])) {
  redis_addr = codes "localhost:6379";
  rate_limit_per_minute = pos 1;
  max_body_bytes = pos 64;
  policy_file = [];
}

abbrev parts : Parts toy
parts = record {
  to_number = λ t. t;
  tostring = λ t. t ∷ [];
  day_of = λ now. codes "2024-05-01";
  to_lower = λ s. s;
  arithmetic = scaled;
  shuffle = λ freq. freq;
  generate = λ a prompt. ok (record { text = codes "hello"; input_tokens = 3; output_tokens = 4 });
  stream_to = λ a prompt ww. (ww, none);
}

abbrev empty : World RedisState
empty = record {
  redis = record { keys = λ key. record { members = []; expires = 0 }; counters = λ key. none };
  metrics = [];
  asked = [];
}

abbrev acme : Request
acme = record ask { authorization = codes "Bearer key-acme-1234" }

abbrev arrival : ℕ → Request → Arrival
arrival now r = record { now = now; req_id = codes "r1"; request = r; connection = connection }

abbrev arrivals : List Arrival
arrivals = arrival 1 ask ∷ arrival 2 acme ∷ arrival 3 ask ∷ []

first_or : List ℕ → ℕ
first_or [] = 0
first_or (x ∷ xs) = x

same_text : (a b : ℕ) → ◌≡◌ {A = Bytes} (a ∷ []) (b ∷ []) → a ≡ b
unfolding first_or
same_text a b e = ap first_or e

asked_at-limit_example :
    length (
      in_window minute 3
        (asked_at toy from_int decode quote parts cfg true none (codes "dev") empty arrivals))
    ≤ 1
unfolding equal
asked_at-limit_example =
    asked_at-limit toy from_int decode quote parts cfg true none (codes "dev") refl (λ t. Unit {0})
      1 arrivals empty (λ t h. refl) (λ t h. refl) (λ a b h k e. same_text a b e) refl refl
      (omega arith, (omega arith, (omega arith, tt))) (tt, (tt, (tt, tt))) 3

abbrev gateway : Server toy RedisState
gateway = new_server toy parts cfg true none 1

serve_unanswered_example :
    serve toy RedisState from_int decode quote
      (cut_off (λ t. t) (λ t. t ∷ []) (λ now. codes "2024-05-01") (pos 1) (pos 9) 1 gateway)
      empty
      (codes "r1")
      acme
      connection
    ≡ serve toy RedisState from_int decode quote
        (without_redis gateway)
        empty
        (codes "r1")
        acme
        connection
serve_unanswered_example =
    serve_unanswered (λ t. t) (λ t. t ∷ []) (λ now. codes "2024-05-01") (pos 1) (pos 9) toy from_int
      decode quote 1 gateway (codes "r1") empty acme connection
