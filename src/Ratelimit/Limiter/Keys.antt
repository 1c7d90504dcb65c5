-- ===== src/Ratelimit/Limiter/Keys.antt =====
-- internal/ratelimit/limiter.go: which keys of Redis a call of `Allow` changes.
use llm_guardrail_gateway.Base.{
  ℕ, ◌-◌, ℤ, pos, Bytes, codes, equal, equal_iff, true, false, Option, none, some, List, [], ◌∷◌,
  ◌++◌, ◌≡◌, ◌≢◌, inl, inr, refl, ap, sym, ◌∙◌, append_assoc, append-nil, Option-cases, Bool-cases,
}
use llm_guardrail_gateway.Ratelimit.Limiter.Bound.{serve_all}
use llm_guardrail_gateway.Ratelimit.Limiter.{SortedSet, Keys, set_key, script, allow, ttl_of}

abbrev pub key_of : Bytes → Bytes
key_of tenant_id = codes "ratelimit:" ++ tenant_id

key_of-injective : (a b : Bytes) → key_of a ≡ key_of b → a ≡ b
key_of-injective a b h = cc h

module _ (to_number : ℕ → ℕ) (tostring : ℕ → Bytes) (limit : ℤ) (window now : ℕ) (keys : Keys)
    (tenant_id : Bytes) where
  -- the script, as `Allow` runs it for the tenant
  abbrev pub scripted : SortedSet × Option ℕ
  scripted =
      script to_number tostring (now - window) now limit (ttl_of window) (keys (key_of tenant_id))

  allow-set :
      (allow to_number tostring limit window now true keys tenant_id).0
      ≡ set_key keys (key_of tenant_id) scripted.0
  unfolding allow
  allow-set = elim (Option-cases scripted.1) [
    | inl e ↦ rw (allow, e) refl
    | inr (n, e) ↦ rw (allow, e) refl
  ]

  pub allow-own :
      (allow to_number tostring limit window now true keys tenant_id).0 (key_of tenant_id)
      ≡ scripted.0
  allow-own =
      let found : equal (key_of tenant_id) (key_of tenant_id) ≡ true = (equal_iff _ _).1 refl in
      ap (λ k. k (key_of tenant_id)) allow-set ∙ rw found refl

  pub allow-other :
      (other : Bytes)
      → other ≢ tenant_id
      → (allow to_number tostring limit window now true keys tenant_id).0 (key_of other)
        ≡ keys (key_of other)
  allow-other other ne =
      ap (λ k. k (key_of other)) allow-set
      ∙ elim (Bool-cases (equal (key_of other) (key_of tenant_id))) [
        | inl e ↦ absurd (ne (key_of-injective other tenant_id ((equal_iff _ _).0 e)))
        | inr e ↦ rw e refl
      ]

  pub allow_refused :
      scripted.1 ≡ none
      → (allow to_number tostring limit window now true keys tenant_id).1 ≡ some (false, pos 0)
  unfolding allow
  allow_refused e = rw (allow, e) refl

module _ (to_number : ℕ → ℕ) (tostring : ℕ → Bytes) (limit : ℤ) (window ttl : ℕ) where
  pub serve_all-append :
      (times : List ℕ) (set : SortedSet) (allowed : List ℕ)
      → serve_all to_number tostring limit window ttl set allowed times
        ≡ allowed ++ serve_all to_number tostring limit window ttl set [] times
  unfolding serve_all
  serve_all-append [] set allowed = sym (append-nil allowed)
  serve_all-append (now ∷ rest) set allowed =
      elim (Option-cases (script to_number tostring (now - window) now limit ttl set).1) [
        | inl e ↦ rw (serve_all, e) (serve_all-append rest _ allowed)
        | inr (n, e) ↦
            rw (serve_all, e)
              (serve_all-append rest _ (allowed ++ (now ∷ []))
                ∙ append_assoc allowed (now ∷ []) _
                ∙ ap (λ t. allowed ++ t) (sym (serve_all-append rest _ (now ∷ []))))
      ]
