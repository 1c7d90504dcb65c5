-- ===== src/Tests/Gateway.antt =====
-- A request through internal/gateway/gateway.go, and changes of the file of
-- internal/policy/watcher.go.
use llm_guardrail_gateway.Base.{
  ℕ, ◌+◌, ◌^◌, ◌≤◌, ◌<◌, ℤ, pos, negsuc, Bytes, codes, equal, has_prefix, lookup, true, ltb, Option,
  none, some, List, [], ◌∷◌, ◌++◌, ◌≡◌, ◌≢◌, ◌⊎◌, ◌↔◌, refl, arith,
}
use llm_guardrail_gateway.Base.Result.{ok}
use llm_guardrail_gateway.Config.Load.{Config}
use llm_guardrail_gateway.Config.Load
use llm_guardrail_gateway.Gateway.Admission.{IsAdmitted, serve-asked}
use llm_guardrail_gateway.Gateway.Auth.{
  Tenant, default_store, bearer, trim_space, trim_left, mark_length, authenticate,
}
use llm_guardrail_gateway.Gateway.Auth.Header.{authenticate_iff}
use llm_guardrail_gateway.Gateway.Auth.Spaces.{IsTrimmed}
use llm_guardrail_gateway.Gateway.Charges.{IsCompleted, tokens_used-bounds, handle_complete-charges}
use llm_guardrail_gateway.Gateway.Handlers.{tokens_used, handle_complete}
use llm_guardrail_gateway.Gateway.Middleware.{Connection, serve}
use llm_guardrail_gateway.Adapters.OpenAi.{new_adapter, trim_slashes}
use llm_guardrail_gateway.Adapters.OpenAi
use llm_guardrail_gateway.Gateway.Provider.{
  openai_compat_adapter, or_default, provider_name, known, new, IsComplete, new-IsComplete,
}
use llm_guardrail_gateway.Gateway.Server.{
  Request, pass, GenerateResult, Limiter, Quota, Bundle, Server, World,
}
use llm_guardrail_gateway.Gateway.Watcher.Current.{IsFrom, IsLatest, watch-IsFrom}
use llm_guardrail_gateway.Gateway.Watcher.{
  Event, changed, unchanged, watch_error, end, load, Watcher, new_watcher, publish_to_cache, watch,
}
use llm_guardrail_gateway.Streaming.Client.{steady}
use llm_guardrail_gateway.Tests.Policy.{toy, source, rules, source-parse, policy-compile}

abbrev pub from_int : ℤ → ℕ
from_int (pos n) = n
from_int (negsuc n) = 0

-- the prompt is the whole body
abbrev pub decode : Bytes → Option Bytes
decode body = some body

abbrev pub quote : Bytes → Bytes
quote s = b'"' ∷ (s ++ b'"' ∷ [])

abbrev bundle : Bundle toy
bundle = record { tenant_id = codes "dev"; rules = rules }

abbrev limiter : Limiter ℕ
limiter = record { allow = λ redis tenant. (redis, some (true, pos 5)) }

abbrev quota : Quota ℕ
quota = record {
  check = λ redis tenant. some (pos redis, ltb redis 100);
  add = λ redis tenant n. (redis + n, some (pos (redis + n), true));
  total = λ redis tenant. some (pos redis);
}

abbrev result : GenerateResult
result = record { text = codes "hello"; input_tokens = 3; output_tokens = 4 }

abbrev pub server : Server toy ℕ
server = record {
  max_body_bytes = pos 1024;
  window_size = pos 512;
  auth_store = default_store;
  scan = λ prompt. record { score = 10; verdict = pass };
  policy = some (some bundle);
  limiter = some limiter;
  quota = some quota;
  generate = λ prompt. ok result;
  stream_to = λ prompt ww. (ww, none);
  output_patterns = [];
}

abbrev pub world : World ℕ
world = record { redis = 7; metrics = []; asked = [] }

abbrev pub connection : Connection
connection = record {
  client = steady [];
  can_flush = true;
  start = 0;
  ticks = record { start = 1; end = 2; now = 3 };
}

abbrev dev_header : Bytes
dev_header = codes "Bearer  key-dev-local "

abbrev pub ask : Request
ask = record {
  method = codes "POST";
  path = codes "/v1/complete";
  authorization = dev_header;
  content_length = some 2;
  body = codes "hi";
}

serve-asked_example :
    ((serve toy ℕ from_int decode quote server world (codes "r1") ask connection).0.asked ≡ [])
    ⊎ IsAdmitted toy ℕ from_int decode quote server
        (codes "r1")
        ask
        world
        (serve toy ℕ from_int decode quote server world (codes "r1") ask connection).0
serve-asked_example =
    serve-asked toy ℕ from_int decode quote server (codes "r1") ask world connection

handle_complete-charges_example :
    IsCompleted toy ℕ from_int decode quote server
      (codes "r1")
      (codes "dev")
      ask
      world
      (handle_complete toy ℕ from_int decode quote server world (codes "dev") (codes "r1") ask)
    ⊎ (((handle_complete toy ℕ from_int decode quote server world
            (codes "dev")
            (codes "r1")
            ask).1.status
          ≢ 200)
        × ((handle_complete toy ℕ from_int decode quote server world
              (codes "dev")
              (codes "r1")
              ask).0.redis
            ≡ 7))
handle_complete-charges_example =
    handle_complete-charges toy ℕ from_int decode quote server (codes "r1") (codes "dev") ask world

tokens_used-bounds_example : (1 ≤ tokens_used 3 4 7) × (tokens_used 3 4 7 < 2 ^ 63)
tokens_used-bounds_example = tokens_used-bounds 3 4 7 (omega arith)

abbrev dev : Tenant
dev = record { id = codes "dev"; name = codes "Local Dev" }

authenticate_iff_example : (authenticate default_store dev_header ≡ some dev) ↔ (
    (raw key : Bytes) × (dev_header ≡ bearer ++ raw)
    × IsTrimmed raw key
    × (key ≢ [])
    × (lookup key default_store ≡ some dev))
authenticate_iff_example = authenticate_iff default_store dev_header dev

abbrev start : Watcher toy
start = record { bundle = bundle; has_cache = true; published = (codes "dev", source) ∷ [] }

source-load : load toy (some source) ≡ ok (bundle, source)
unfolding load
source-load = rw (load, source-parse, policy-compile) refl

started : new_watcher toy true (some source) ≡ ok start
unfolding new_watcher publish_to_cache
started = rw (new_watcher, source-load) refl

-- for another tenant, where it is written
abbrev next_source : Bytes
next_source =
    codes
      "policy tenant: acme { rule all { when input.risk_score > 0.10 action log reason \"all\" } }"

-- The file is written, is renamed, is not found, has half a policy and, behind the end, is written.
abbrev events : List (Event × Option Bytes)
events =
    (changed, some next_source)
    ∷ (unchanged, some source)
    ∷ (changed, none)
    ∷ (watch_error, some source)
    ∷ (changed, some (codes "policy tenant:"))
    ∷ (end, some source)
    ∷ (changed, some source)
    ∷ []

watch-IsFrom_example :
    (src : Bytes) × IsLatest toy src
      (some source ∷ some next_source ∷ none ∷ some (codes "policy tenant:") ∷ [])
    × IsFrom toy src (watch toy start events).bundle
watch-IsFrom_example = watch-IsFrom toy true (some source) start events started

abbrev same_case : Bytes → Bytes
same_case s = s

abbrev groq : Config
groq = record (Load.load (λ _. [])) {
  llm_provider = codes " groq";
  llm_api_key = codes "k";
  llm_model = codes "m";
  llm_base_url = codes "u//";
}

abbrev groq_adapter : OpenAi.Adapter
groq_adapter = record { base_url = codes "u"; api_key = codes "k"; model = codes "m" }

groq-new : new same_case groq ≡ ok (openai_compat_adapter groq_adapter)
unfolding new provider_name known or_default trim_space trim_left mark_length has_prefix lookup
    equal new_adapter trim_slashes
groq-new = refl

new-IsComplete_example : IsComplete same_case groq (openai_compat_adapter groq_adapter)
new-IsComplete_example = new-IsComplete same_case groq _ groq-new
