-- ===== src/Gateway/Limits.antt =====
-- internal/gateway/gateway.go: the limits of `withMiddleware`, where they let a request through.
use llm_guardrail_gateway.Base.{
  ℤ, Bytes, false, Option, none, some, ◌≡◌, ◌≢◌, inl, inr, sym, ap, subst, ◌∙◌, Bool-cases,
  Option-cases,
}
use llm_guardrail_gateway.Base.Result.{Result, ok, err, Result-cases}
use llm_guardrail_gateway.Dsl.Runtime.{Runtime}
use llm_guardrail_gateway.Gateway.Middleware.{limit_rate, limit_tokens, admit}
use llm_guardrail_gateway.Gateway.Server.{Limiter, Quota, Reply, Server, World}

module _ (rt : Runtime) (S : Type 0) (from_int : ℤ → rt.Float) (decode : Bytes → Option Bytes)
    (quote : Bytes → Bytes) (s : Server rt S) (req_id : Bytes) where
  -- The limiter and the quota, where Redis answers, are not exceeded.
  pub record IsWithin (w w' : World S) (tenant_id : Bytes) : Type 0 where
    pub rate :
        (l : Limiter S) (n : ℤ)
        → s.limiter ≡ some l
        → (l.allow w.redis tenant_id).1 ≢ some (false, n)
    pub tokens :
        (q : Quota S) (n : ℤ) → s.quota ≡ some q → q.check w'.redis tenant_id ≢ some (n, false)
    pub unasked : w'.asked ≡ w.asked

  same_world :
      (w w' : World S) → ◌≡◌ {A = Result (World S × Reply rt) (World S)} (ok w) (ok w') → w ≡ w'
  same_world w w' h = cc h

  same_asked :
      (w w' : World S)
      → ◌≡◌ {A = Result (World S × Reply rt) (World S)} (ok w) (ok w')
      → w'.asked ≡ w.asked
  same_asked w w' h = ap (λ (v : World S). v.asked) (sym (same_world w w' h))

  limit_rate-ok :
      (o : Option (Limiter S)) (w w' : World S) (tenant_id : Bytes)
      → limit_rate rt S from_int decode quote o w tenant_id req_id ≡ ok w'
      → ((l : Limiter S) (n : ℤ) → o ≡ some l → (l.allow w.redis tenant_id).1 ≢ some (false, n))
        × (w'.asked ≡ w.asked)
  unfolding limit_rate
  limit_rate-ok none w w' tenant_id h = (λ l n e. cc, same_asked w w' h)
  limit_rate-ok (some l) w w' tenant_id h = (unrefused, kept)
    where
      unrefused :
          (l' : Limiter S) (n : ℤ)
          → ◌≡◌ {A = Option (Limiter S)} (some l) (some l')
          → (l'.allow w.redis tenant_id).1 ≢ some (false, n)
      unrefused l' n e refused =
          let same : l' ≡ l = cc e in
          let of_l : (l.allow w.redis tenant_id).1 ≡ some (false, n) =
            subst (λ k. (k.allow w.redis tenant_id).1 ≡ some (false, n)) same refused in
          cc (rw (limit_rate, of_l) at h)

      kept : w'.asked ≡ w.asked
      kept = elim (Option-cases (l.allow w.redis tenant_id).1) [
        | inl e ↦ same_asked _ w' (rw (limit_rate, e) at h)
        | inr ((allowed, n), e) ↦ elim (Bool-cases allowed) [
          | inl a ↦ same_asked _ w' (rw (limit_rate, e, a) at h)
          | inr a ↦ cc (rw (limit_rate, e, a) at h)
        ]
      ]

  limit_tokens-ok :
      (o : Option (Quota S)) (w w' : World S) (tenant_id : Bytes)
      → limit_tokens rt S from_int decode quote o w tenant_id req_id ≡ ok w'
      → ((q : Quota S) (n : ℤ) → o ≡ some q → q.check w'.redis tenant_id ≢ some (n, false))
        × (w' ≡ w)
  unfolding limit_tokens
  limit_tokens-ok none w w' tenant_id h = (λ q n e. cc, sym (same_world w w' h))
  limit_tokens-ok (some q) w w' tenant_id h = (unrefused, kept)
    where
      kept : w' ≡ w
      kept = elim (Option-cases (q.check w.redis tenant_id)) [
        | inl e ↦ sym (same_world w w' (rw (limit_tokens, e) at h))
        | inr ((n, under), e) ↦ elim (Bool-cases under) [
          | inl a ↦ sym (same_world w w' (rw (limit_tokens, e, a) at h))
          | inr a ↦ cc (rw (limit_tokens, e, a) at h)
        ]
      ]

      unrefused :
          (q' : Quota S) (n : ℤ)
          → ◌≡◌ {A = Option (Quota S)} (some q) (some q')
          → q'.check w'.redis tenant_id ≢ some (n, false)
      unrefused q' n e refused =
          let same : q' ≡ q = cc e in
          let of_q : q.check w'.redis tenant_id ≡ some (n, false) =
            subst (λ k. k.check w'.redis tenant_id ≡ some (n, false)) same refused in
          let of_w : q.check w.redis tenant_id ≡ some (n, false) =
            subst (λ (v : World S). q.check v.redis tenant_id ≡ some (n, false)) kept of_q in
          cc (rw (limit_tokens, of_w) at h)

  pub admit-IsWithin :
      (w w' : World S) (tenant_id : Bytes)
      → admit rt S from_int decode quote s w tenant_id req_id ≡ ok w'
      → IsWithin w w' tenant_id
  unfolding admit
  admit-IsWithin w w' tenant_id h =
      elim (Result-cases (limit_rate rt S from_int decode quote s.limiter w tenant_id req_id)) [
        | inl (stop, e) ↦ cc (rw (admit, e) at h)
        | inr (w₁, e) ↦
            let (rate, kept₁) = limit_rate-ok s.limiter w w₁ tenant_id e in
            let (tokens, kept₂) = limit_tokens-ok s.quota w₁ w' tenant_id (rw (admit, e) at h) in
            record {
              rate = rate;
              tokens = tokens;
              unasked = ap (λ (v : World S). v.asked) kept₂ ∙ kept₁;
            }
      ]

  stopped_keeps :
      (a b : World S × Reply rt)
      → ◌≡◌ {A = Result (World S × Reply rt) (World S)} (err a) (err b)
      → b.0.asked ≡ a.0.asked
  stopped_keeps a b h = let same : b ≡ a = cc h in ap (λ (v : World S × Reply rt). v.0.asked) same

  limit_rate-err :
      (o : Option (Limiter S)) (w : World S) (tenant_id : Bytes) (stop : World S × Reply rt)
      → limit_rate rt S from_int decode quote o w tenant_id req_id ≡ err stop
      → stop.0.asked ≡ w.asked
  unfolding limit_rate
  limit_rate-err none w tenant_id stop h = cc h
  limit_rate-err (some l) w tenant_id stop h = elim (Option-cases (l.allow w.redis tenant_id).1) [
    | inl e ↦ cc (rw (limit_rate, e) at h)
    | inr ((allowed, n), e) ↦ elim (Bool-cases allowed) [
      | inl a ↦ cc (rw (limit_rate, e, a) at h)
      | inr a ↦ stopped_keeps _ stop (rw (limit_rate, e, a) at h)
    ]
  ]

  limit_tokens-err :
      (o : Option (Quota S)) (w : World S) (tenant_id : Bytes) (stop : World S × Reply rt)
      → limit_tokens rt S from_int decode quote o w tenant_id req_id ≡ err stop
      → stop.0.asked ≡ w.asked
  unfolding limit_tokens
  limit_tokens-err none w tenant_id stop h = cc h
  limit_tokens-err (some q) w tenant_id stop h = elim (Option-cases (q.check w.redis tenant_id)) [
    | inl e ↦ cc (rw (limit_tokens, e) at h)
    | inr ((n, under), e) ↦ elim (Bool-cases under) [
      | inl a ↦ cc (rw (limit_tokens, e, a) at h)
      | inr a ↦ stopped_keeps _ stop (rw (limit_tokens, e, a) at h)
    ]
  ]

  pub admit-err :
      (w : World S) (tenant_id : Bytes) (stop : World S × Reply rt)
      → admit rt S from_int decode quote s w tenant_id req_id ≡ err stop
      → stop.0.asked ≡ w.asked
  unfolding admit
  admit-err w tenant_id stop h =
      elim (Result-cases (limit_rate rt S from_int decode quote s.limiter w tenant_id req_id)) [
        | inl (stop', e) ↦
            stopped_keeps stop' stop (rw (admit, e) at h)
            ∙ limit_rate-err s.limiter w tenant_id stop' e
        | inr (w₁, e) ↦
            limit_tokens-err s.quota w₁ tenant_id stop (rw (admit, e) at h)
            ∙ (limit_rate-ok s.limiter w w₁ tenant_id e).1
      ]
