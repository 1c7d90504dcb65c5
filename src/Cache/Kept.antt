-- ===== src/Cache/Kept.antt =====
-- internal/cache/policy.go: what `Get` finds after `Set`.
use llm_guardrail_gateway.Base.{
  ℕ, ◌+◌, ◌<◌, Bytes, equal, equal_iff, Bool, true, ltb, arith, sym, Option, some, List, [], ◌∷◌,
  ◌≡◌, ◌≢◌, refl, All, inl, inr, Bool-cases, Option-cases, ◌∙◌,
}
use llm_guardrail_gateway.Base.Result.{ok}
use llm_guardrail_gateway.Cache.{
  policy_ttl, CachedEntry, Stored, Redis, cache_key, put, live, content_version, cached_entry, set,
  recompile, get,
}
use llm_guardrail_gateway.Dsl.Compiler.{CompiledRule, compile}
use llm_guardrail_gateway.Dsl.Parser.{PolicyNode, parse}
use llm_guardrail_gateway.Dsl.Runtime.{Runtime, is_float}

-- a call of `Set`
pub record SetCall (rt : Runtime) : Type 0 where
  pub now : ℕ
  pub answers : Bool
  pub tenant_id : Bytes
  pub source : Bytes
  pub rules : List (CompiledRule rt)

module _ (rt : Runtime) (hash : Bytes → Bytes) (marshal : CachedEntry → Option Bytes) where
  -- the state after the calls
  unfoldable pub set_all : Redis → List (SetCall rt) → Redis
  set_all redis [] = redis
  set_all redis (c ∷ calls) =
      set_all (set rt hash marshal c.now c.answers redis c.tenant_id c.source c.rules).0 calls

  abbrev pub key_of : SetCall rt → Bytes
  key_of c = cache_key c.tenant_id (content_version hash c.source)

  put_other : (redis : Redis) (key k : Bytes) (v : Stored) → key ≢ k → put redis key v k ≡ redis k
  put_other redis key k v apart = elim (Bool-cases (equal k key)) [
    | inl e ↦ absurd (apart (sym ((equal_iff k key).0 e)))
    | inr n ↦ rw n refl
  ]

  set_other :
      (redis : Redis) (c : SetCall rt) (k : Bytes)
      → key_of c ≢ k
      → (set rt hash marshal c.now c.answers redis c.tenant_id c.source c.rules).0 k ≡ redis k
  unfolding set
  set_other redis c k apart =
      elim (Option-cases (marshal (cached_entry rt hash c.tenant_id c.source c.rules))) [
        | inl e ↦ rw (set, e) refl
        | inr (value, e) ↦ elim (Bool-cases c.answers) [
          | inl a ↦ rw (set, e, a) (put_other redis (key_of c) k _ apart)
          | inr a ↦ rw (set, e, a) refl
        ]
      ]

  set_all_other :
      (redis : Redis) (calls : List (SetCall rt)) (k : Bytes)
      → All (λ c. key_of c ≢ k) calls
      → set_all redis calls k ≡ redis k
  unfolding set_all
  set_all_other redis [] k h = refl
  set_all_other redis (c ∷ calls) k (apart, rest) =
      set_all_other (set rt hash marshal c.now c.answers redis c.tenant_id c.source c.rules).0 calls
        k rest
      ∙ set_other redis c k apart

  set_stores :
      (redis : Redis) (c : SetCall rt) (value : Bytes)
      → marshal (cached_entry rt hash c.tenant_id c.source c.rules) ≡ some value
      → c.answers ≡ true
      → (set rt hash marshal c.now c.answers redis c.tenant_id c.source c.rules).0 (key_of c)
        ≡ some (record { value = value; expires = c.now + policy_ttl })
  unfolding set
  set_stores redis c value e a = rw (set, e, a, (equal_iff (key_of c) (key_of c)).1 refl) refl

  recompile_loaded :
      (source : Bytes) (ast : PolicyNode) (rules : List (CompiledRule rt))
      → parse (is_float rt) source ≡ ok ast
      → compile rt ast ≡ ok rules
      → recompile rt source ≡ ok rules
  unfolding recompile
  recompile_loaded source ast rules parsed compiled = rw (recompile, parsed, compiled) refl

  get_stored :
      (unmarshal : Bytes → Option CachedEntry) (now : ℕ) (redis : Redis)
      (tenant_id version value : Bytes) (expires : ℕ) (entry : CachedEntry)
      (rules : List (CompiledRule rt))
      → redis (cache_key tenant_id version) ≡ some (record { value = value; expires = expires })
      → now < expires
      → unmarshal value ≡ some entry
      → recompile rt entry.source ≡ ok rules
      → get rt unmarshal now true redis tenant_id version ≡ ok (some rules)
  unfolding get live
  get_stored unmarshal now redis tenant_id version value expires entry rules at young read again =
      let older : ltb now expires ≡ true = ground arith in
      rw (get, at, live, older, read, again) refl

  -- Where Redis answers and the JSON of what `Set` stores reads back as it was: for 24 hours after
  -- `Set` with a source that compiles to `rules`, whatever other calls of `Set` at other keys come
  -- after it, `Get` with the tenant and the source's version returns `rules`.
  pub set-get :
      (unmarshal : Bytes → Option CachedEntry) (redis : Redis) (c : SetCall rt)
      (later : List (SetCall rt)) (now : ℕ) (value : Bytes) (ast : PolicyNode)
      → c.answers ≡ true
      → marshal (cached_entry rt hash c.tenant_id c.source c.rules) ≡ some value
      → unmarshal value ≡ some (cached_entry rt hash c.tenant_id c.source c.rules)
      → parse (is_float rt) c.source ≡ ok ast
      → compile rt ast ≡ ok c.rules
      → All (λ d. key_of d ≢ key_of c) later
      → now < c.now + policy_ttl
      → get rt unmarshal now true
          (set_all redis (c ∷ later))
          c.tenant_id
          (content_version hash c.source)
        ≡ ok (some c.rules)
  unfolding set_all
  set-get unmarshal redis c later now value ast a written read parsed compiled others young =
      get_stored unmarshal now (set_all redis (c ∷ later)) c.tenant_id _ value (c.now + policy_ttl)
        _ c.rules (set_all_other _ later (key_of c) others ∙ set_stores redis c value written a)
        young read (recompile_loaded c.source ast c.rules parsed compiled)
