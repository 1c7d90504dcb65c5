-- ===== src/Ratelimit/Limiter/Runs.antt =====
-- The bound of internal/ratelimit/limiter.go: no window of time has more than `limit` allowed
-- requests.
use llm_guardrail_gateway.Base.{
  ℕ, ◌-◌, ◌≤◌, ◌<◌, pos, Bytes, codes, equal, equal_iff, Bool, true, false, Option, none, some,
  List, [], ◌∷◌, ◌++◌, All, length, inl, inr, ◌≡◌, refl, sym, ap, subst, ◌∙◌, arith, Option-cases,
  if◌then◌else◌,
}
use llm_guardrail_gateway.Ratelimit.Limiter.Bound.{serve_all, serve_all-limit}
use llm_guardrail_gateway.Ratelimit.Limiter.Times.{in_window, Increasing}
use llm_guardrail_gateway.Ratelimit.Limiter.{
  SortedSet, Keys, set_key, script, remaining, allow, ttl_of,
}

module _ (to_number : ℕ → ℕ) (tostring : ℕ → Bytes) (limit window : ℕ) (tenant_id : Bytes) where
  -- the calls of `Allow` for the tenant at the given times, with Redis answering: those that were
  -- allowed, added to those before
  unfoldable pub allow_all : Keys → List ℕ → List ℕ → List ℕ
  allow_all keys allowed [] = allowed
  allow_all keys allowed (now ∷ rest) =
      let (keys', result) = allow to_number tostring (pos limit) window now true keys tenant_id in
      elim result [
        | none ↦ allow_all keys' allowed rest
        | some (let_in, _) ↦
            allow_all keys' (if let_in then allowed ++ (now ∷ []) else allowed) rest
      ]

  abbrev key : Bytes
  key = codes "ratelimit:" ++ tenant_id

  abbrev ttl : ℕ
  ttl = ttl_of window

  abbrev scripted : Keys → ℕ → SortedSet × Option ℕ
  scripted keys now = script to_number tostring (now - window) now (pos limit) ttl (keys key)

  allow_rejected :
      (keys : Keys) (now : ℕ)
      → (scripted keys now).1 ≡ none
      → allow to_number tostring (pos limit) window now true keys tenant_id
        ≡ (set_key keys key (scripted keys now).0, some (false, pos 0))
  unfolding allow
  allow_rejected keys now e = rw (allow, e) refl

  allow_accepted :
      (keys : Keys) (now n : ℕ)
      → (scripted keys now).1 ≡ some n
      → allow to_number tostring (pos limit) window now true keys tenant_id ≡ (
        set_key keys key (scripted keys now).0,
        some (true, remaining to_number tostring (pos limit) n),
      )
  unfolding allow
  allow_accepted keys now n e = rw (allow, e) refl

  allow_all-serve_all :
      (times : List ℕ) (keys : Keys) (allowed : List ℕ)
      → allow_all keys allowed times
        ≡ serve_all to_number tostring (pos limit) window ttl (keys key) allowed times
  unfolding allow_all serve_all
  allow_all-serve_all [] keys allowed = refl
  allow_all-serve_all (now ∷ rest) keys allowed =
      let r = script to_number tostring (now - window) now (pos limit) ttl (keys key) in
      let found : equal key key ≡ true = (equal_iff key key).1 refl in
      elim (Option-cases r.1) [
        | inl e ↦
            let done = allow_rejected keys now e in
            rw (allow_all, serve_all, ap (λ r. r.1) done, ap (λ r. r.0) done, e)
              (allow_all-serve_all rest _ allowed
                ∙ ap
                    (λ (b : Bool).
                      serve_all to_number tostring (pos limit) window ttl
                        (if b then r.0 else keys key) allowed rest)
                    found)
        | inr (n, e) ↦
            let done = allow_accepted keys now n e in
            rw (allow_all, serve_all, ap (λ r. r.1) done, ap (λ r. r.0) done, e)
              (allow_all-serve_all rest _ (allowed ++ (now ∷ []))
                ∙ ap
                    (λ (b : Bool).
                      serve_all to_number tostring (pos limit) window ttl
                        (if b then r.0 else keys key) (allowed ++ (now ∷ [])) rest)
                    found)
      ]

  -- Of the requests of a tenant at increasing times, which find no entries of the tenant at the
  -- start, `Allow` lets at most `limit` through in each window of time, however the requests fall,
  -- as long as the float64 of Lua holds each of the times, and the start of the window that ends
  -- with it, exactly, and `tostring` writes no two of them alike. The window is not empty.
  pub allow_all-limit :
      (T : ℕ → Type 0)
      → ((t : ℕ) → T t → to_number t ≡ t)
      → ((t : ℕ) → T t → to_number (t - window) ≡ t - window)
      → ((a b : ℕ) → T a → T b → tostring a ≡ tostring b → a ≡ b)
      → 0 < window
      → (keys : Keys) → (keys key).members ≡ []
      → (times : List ℕ) → Increasing 0 times
      → All T times
      → (u : ℕ) → length (in_window window u (allow_all keys [] times)) ≤ limit
  allow_all-limit T exact exact_start distinct positive keys empty times up ts u =
      let bounded =
        serve_all-limit to_number tostring T exact distinct limit window ttl (omega arith)
          exact_start times (keys key).expires positive up ts u in
      rw (allow_all-serve_all times keys []) (
        subst
          (λ set.
            length (
              in_window window u (serve_all to_number tostring (pos limit) window ttl set [] times))
            ≤ limit)
          (λ i. record { members = sym empty i; expires = (keys key).expires }) bounded)
