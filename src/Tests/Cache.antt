-- ===== src/Tests/Cache.antt =====
-- Runs of internal/cache/policy.go on a small policy.
use llm_guardrail_gateway.Base.{
  Bytes, codes, equal, apart, take, true, Option, none, some, [], ◌∷◌, map, ◌≡◌, ◌≢◌, refl, arith,
}
use llm_guardrail_gateway.Base.Result.{ok}
use llm_guardrail_gateway.Cache.Kept.{SetCall, key_of, set_all, set-get}
use llm_guardrail_gateway.Cache.{
  RuleEntry, CachedEntry, Redis, action_text, hex, cache_key, content_version, get,
}
use llm_guardrail_gateway.Dsl.Compiler.{CompiledRule}
use llm_guardrail_gateway.Tests.Policy.{toy, source, rules, policy, source-parse, policy-compile}

-- the source stands for its own hash
abbrev hash : Bytes → Bytes
hash s = s

abbrev marshal : CachedEntry → Option Bytes
marshal entry = some entry.source

abbrev entry_of : CompiledRule toy → RuleEntry
entry_of r = record { name = r.name; action = action_text r.action; reason = r.reason }

-- reads back the entries of one tenant with the rules of one policy
abbrev unmarshal : Bytes → Option CachedEntry
unmarshal s = some (record {
  tenant_id = codes "dev";
  version = hex (take 8 s);
  source = s;
  rules = map entry_of rules;
})

abbrev first : SetCall toy
first = record { now = 10; answers = true; tenant_id = codes "dev"; source = source; rules = rules }

-- another tenant's policy
abbrev second : SetCall toy
second = record first { now = 20; tenant_id = codes "acme" }

abbrev empty : Redis
empty k = none

other_key : key_of toy hash marshal second ≢ key_of toy hash marshal first
unfolding equal cache_key content_version hex
other_key e =
    apart (key_of toy hash marshal second) (key_of toy hash marshal second)
      (key_of toy hash marshal first) refl refl e

first-unmarshal :
    unmarshal source
    ≡ some (record {
      tenant_id = codes "dev";
      version = content_version hash source;
      source = source;
      rules = map entry_of rules;
    })
unfolding content_version
first-unmarshal = refl

set-get_example :
    get toy unmarshal 30 true
      (set_all toy hash marshal empty (first ∷ second ∷ []))
      (codes "dev")
      (content_version hash source)
    ≡ ok (some rules)
set-get_example =
    set-get toy hash marshal unmarshal empty first (second ∷ []) 30 source policy refl refl
      first-unmarshal source-parse policy-compile (other_key, tt) (omega arith)
