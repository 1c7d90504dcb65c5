-- ===== src/Cache.antt =====
-- internal/cache/policy.go: the sources of policies in Redis. Times are nanoseconds. SHA-256 and
-- encoding/json are parameters: `hash` gives the bytes of a sum, `marshal` and `unmarshal` the JSON
-- of an entry, if there is one. Whether Redis answers is an
-- argument, and a call that it does not answer changes nothing.
pub mod Kept
use llm_guardrail_gateway.Base.{
  ℕ, ◌+◌, ◌/◌, ◌%◌, take, Bytes, codes, equal, Bool, not, ltb, Option, none, some, List, [], ◌∷◌,
  ◌++◌, map, if◌then◌else◌,
}
use llm_guardrail_gateway.Base.Result.{Result, ok, err}
use llm_guardrail_gateway.Dsl.Compiler.{
  Action, block, tag, log, redact, CompileError, CompiledRule, compile,
}
use llm_guardrail_gateway.Dsl.Parser.{parse}
use llm_guardrail_gateway.Dsl.Runtime.{Runtime, is_float}
use llm_guardrail_gateway.Dsl.Token.{SyntaxError}

-- 24 hours
abbrev pub policy_ttl : ℕ
policy_ttl = 86400000000000

pub record RuleEntry : Type 0 where
  pub name : Bytes
  pub action : Bytes
  pub reason : Bytes

pub record CachedEntry : Type 0 where
  pub tenant_id : Bytes
  pub version : Bytes
  pub source : Bytes
  pub rules : List RuleEntry

pub data CacheError : Type 0 where
  marshal_failed redis_failed unmarshal_failed : CacheError
  reparse_failed : SyntaxError → CacheError
  recompile_failed : CompileError → CacheError

-- what Redis holds at a key, and when it expires
pub record Stored : Type 0 where
  pub value : Bytes
  pub expires : ℕ

abbrev pub Redis : Type 0
Redis = Bytes → Option Stored

abbrev pub action_text : Action → Bytes
action_text block = codes "BLOCK"
action_text tag = codes "TAG"
action_text log = codes "LOG"
action_text redact = codes "REDACT"

unfoldable pub cache_key : Bytes → Bytes → Bytes
cache_key tenant_id version = codes "policy:" ++ (tenant_id ++ (codes ":" ++ version))

-- `SET` with an expiry
abbrev pub put : Redis → Bytes → Stored → Redis
put redis key v k = if equal k key then some v else redis k

-- `GET`
unfoldable pub live : Option Stored → ℕ → Option Bytes
live none now = none
live (some v) now = if ltb now v.expires then some v.value else none

abbrev hex_digit : ℕ → ℕ
hex_digit d = if ltb d 10 then 48 + d else 87 + d

-- `%x` of bytes
unfoldable pub hex : Bytes → Bytes
hex [] = []
hex (b ∷ bs) = hex_digit (b / 16) ∷ hex_digit (b % 16) ∷ hex bs

-- the first 8 bytes of the hash
unfoldable pub content_version : (Bytes → Bytes) → Bytes → Bytes
content_version hash source = hex (take 8 (hash source))

module _ (rt : Runtime) where
  abbrev pub rule_entry : CompiledRule rt → RuleEntry
  rule_entry r = record { name = r.name; action = action_text r.action; reason = r.reason }

  -- what `Set` stores
  abbrev pub cached_entry : (Bytes → Bytes) → Bytes → Bytes → List (CompiledRule rt) → CachedEntry
  cached_entry hash tenant_id source rules = record {
    tenant_id = tenant_id;
    version = content_version hash source;
    source = source;
    rules = map rule_entry rules;
  }

  -- `dsl.Parse` and `dsl.Compile`, as `Get` calls them
  unfoldable pub recompile : Bytes → Result CacheError (List (CompiledRule rt))
  recompile source = elim (parse (is_float rt) source) [
    | err e ↦ err (reparse_failed e)
    | ok ast ↦ elim (compile rt ast) [ err e ↦ err (recompile_failed e) | ok rules ↦ ok rules ]
  ]

  unfoldable pub set :
      (Bytes → Bytes)
      → (CachedEntry → Option Bytes)
      → ℕ
      → Bool
      → Redis
      → Bytes
      → Bytes
      → List (CompiledRule rt)
      → Redis × Option CacheError
  set hash marshal now answers redis tenant_id source rules =
      elim (marshal (cached_entry hash tenant_id source rules)) [
        | none ↦ (redis, some marshal_failed)
        | some bytes ↦ if not answers then (redis, some redis_failed) else (
          put redis (cache_key tenant_id (content_version hash source))
              (record { value = bytes; expires = now + policy_ttl }),
          none,
        )
      ]

  -- A missing key gives none, and no error.
  unfoldable pub get :
      (Bytes → Option CachedEntry)
      → ℕ
      → Bool
      → Redis
      → Bytes
      → Bytes
      → Result CacheError (Option (List (CompiledRule rt)))
  unfolding recompile
  get unmarshal now answers redis tenant_id version =
      if not answers
      then err redis_failed
      else elim (live (redis (cache_key tenant_id version)) now) [
        | none ↦ ok none
        | some bytes ↦ elim (unmarshal bytes) [
          | none ↦ err unmarshal_failed
          | some entry ↦ elim (recompile entry.source) [
            | err e ↦ err e
            | ok rules ↦ ok (some rules)
          ]
        ]
      ]
