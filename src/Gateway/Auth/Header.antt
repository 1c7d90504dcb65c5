-- ===== src/Gateway/Auth/Header.antt =====
-- internal/auth/auth.go: which Authorization headers are accepted.
use llm_guardrail_gateway.Base.{Bytes, [], ◌++◌, lookup, some, ◌≡◌, ◌≢◌, ◌↔◌, sym, subst}
use llm_guardrail_gateway.Gateway.Auth.Spaces.{
  IsTrimmed, trim_space-IsTrimmed, IsTrimmed-trim_space,
}
use llm_guardrail_gateway.Gateway.Auth.{
  Tenant, Store, bearer, trim_space, authenticate, authenticate_raw,
}

-- An API key is accepted exactly when the header is `Bearer ` followed by a key of the store that is
-- not empty, with spaces before and behind it or without: what follows `Bearer ` is a sequence of
-- encodings of Unicode spaces, then the key, which neither starts nor ends with one, and again such
-- a sequence. The tenant is the key's.
pub authenticate_iff :
    (keys : Store) (auth_header : Bytes) (tenant : Tenant)
    → (authenticate keys auth_header ≡ some tenant) ↔ (
        (raw key : Bytes) × (auth_header ≡ bearer ++ raw)
        × IsTrimmed raw key
        × (key ≢ [])
        × (lookup key keys ≡ some tenant))
authenticate_iff keys auth_header tenant =
    let (to, from) = authenticate_raw keys auth_header tenant in
    (
      λ h.
          let (raw, e, some_key, found) = to h in
          (raw, trim_space raw, e, trim_space-IsTrimmed raw, some_key, found),
      λ (raw, key, e, trimmed, some_key, found).
          let same = sym (IsTrimmed-trim_space raw key trimmed) in
          from (
            raw,
            e,
            subst (λ k. k ≢ []) same some_key,
            subst (λ k. lookup k keys ≡ some tenant) same found,
          ),
    )
