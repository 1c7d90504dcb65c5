-- ===== src/Gateway/Provider.antt =====
-- internal/provider/factory.go: the provider that the configuration names, as what the adapter is
-- made of. `to_lower` is strings.ToLower.
use llm_guardrail_gateway.Base.{
  Bytes, codes, equal, equal_iff, lookup, true, false, ◌||◌, Option, none, some, [], ◌∷◌, List, ◌≡◌,
  ◌≢◌, ◌⊎◌, inl, inr, Bool-cases, Option-cases, or_iff, if◌then◌else◌, refl,
}
use llm_guardrail_gateway.Adapters.OpenAi.{
  new_adapter, trim_slashes, IsStripped, trim_slashes-IsStripped,
}
use llm_guardrail_gateway.Adapters.OpenAi
use llm_guardrail_gateway.Base.Result.{Result, ok, err}
use llm_guardrail_gateway.Config.Load.{Config}
use llm_guardrail_gateway.Gateway.Auth.{trim_space}

pub data Adapter : Type 0 where
  mock_adapter : (addr : Bytes) → Adapter
  openai_compat_adapter : OpenAi.Adapter → Adapter

pub data ProviderError : Type 0 where
  base_url_required : ProviderError
  api_key_required : Bytes → ProviderError
  unknown_provider : Bytes → ProviderError

pub record Defaults : Type 0 where
  pub base_url : Bytes
  pub model : Bytes

abbrev pub provider_defaults : List (Bytes × Defaults)
provider_defaults =
    (
      codes "groq",
      record {
        base_url = codes "https://api.groq.com/openai/v1";
        model = codes "openai/gpt-oss-20b";
      },
    )
    ∷ (
      codes "gemini",
      record {
        base_url = codes "https://generativelanguage.googleapis.com/v1beta/openai/";
        model = codes "gemini-2.0-flash";
      },
    )
    ∷ (
      codes "openai",
      record { base_url = codes "https://api.openai.com/v1"; model = codes "gpt-4o-mini" },
    )
    ∷ []

-- `s`, or `fallback` where it is empty
unfoldable pub or_default : Bytes → Bytes → Bytes
or_default [] fallback = fallback
or_default (c ∷ s) fallback = c ∷ s

module _ (to_lower : Bytes → Bytes) where
  -- `p`
  unfoldable pub provider_name : Config → Bytes
  provider_name cfg = to_lower (trim_space cfg.llm_provider)

  unfoldable custom : Config → Result ProviderError Adapter
  unfolding or_default
  custom cfg =
      if equal cfg.llm_base_url []
      then err base_url_required
      else if equal cfg.llm_api_key []
      then err (api_key_required (codes "custom"))
      else ok (
          openai_compat_adapter (
            new_adapter cfg.llm_base_url cfg.llm_api_key
              (or_default cfg.llm_model (codes "default"))))

  unfoldable pub known : Config → Bytes → Result ProviderError Adapter
  unfolding or_default
  known cfg p = elim (lookup p provider_defaults) [
    | none ↦ err (unknown_provider p)
    | some defaults ↦
        if equal cfg.llm_api_key []
        then err (api_key_required p)
        else ok (
            openai_compat_adapter (
              new_adapter (or_default cfg.llm_base_url defaults.base_url) cfg.llm_api_key
                (or_default cfg.llm_model defaults.model)))
  ]

  unfoldable pub new : Config → Result ProviderError Adapter
  unfolding custom known
  new cfg =
      let p = provider_name cfg in
      if equal p [] || equal p (codes "mock")
      then ok (mock_adapter cfg.mock_llm_addr)
      else if equal p (codes "custom")
      then custom cfg
      else known cfg p

  filled : (s : Bytes) → equal s [] ≡ false → s ≢ []
  unfolding equal
  filled [] h e = cc h
  filled (c ∷ s) h e = cc e

  or_default-filled : (s d : Bytes) → d ≢ [] → or_default s d ≢ []
  unfolding or_default
  or_default-filled [] d h = h
  or_default-filled (c ∷ s) d h = λ e. cc e

  or_default-set : (s d : Bytes) → s ≢ [] → or_default s d ≡ s
  unfolding or_default
  or_default-set [] d h = absurd (h refl)
  or_default-set (c ∷ s) d h = refl

  or_default-unset : (s d : Bytes) → s ≡ [] → or_default s d ≡ d
  unfolding or_default
  or_default-unset [] d h = refl
  or_default-unset (c ∷ s) d h = cc h

  provider_defaults-filled :
      (p : Bytes) (d : Defaults)
      → lookup p provider_defaults ≡ some d
      → (d.base_url ≢ []) × (d.model ≢ [])
  unfolding lookup equal
  provider_defaults-filled p d h = elim (Bool-cases (equal p (codes "groq"))) [
    | inl e ↦ filled_as _ d (rw (lookup, e) at h) (λ f. cc f) (λ f. cc f)
    | inr n₁ ↦ elim (Bool-cases (equal p (codes "gemini"))) [
      | inl e ↦ filled_as _ d (rw (lookup, n₁, e) at h) (λ f. cc f) (λ f. cc f)
      | inr n₂ ↦ elim (Bool-cases (equal p (codes "openai"))) [
        | inl e ↦ filled_as _ d (rw (lookup, n₁, n₂, e) at h) (λ f. cc f) (λ f. cc f)
        | inr n₃ ↦ cc (rw (lookup, n₁, n₂, n₃) at h)
      ]
    ]
  ]
    where
      filled_as :
          (d' d : Defaults)
          → ◌≡◌ {A = Option Defaults} (some d') (some d)
          → d'.base_url ≢ []
          → d'.model ≢ []
          → (d.base_url ≢ []) × (d.model ≢ [])
      filled_as d' d same b m = let same' : d ≡ d' = cc same in rw same' (b, m)

  -- `base` is the configured base URL, or else the provider's default, without the slashes at its
  -- end.
  pub record IsBaseUrl (cfg : Config) (base : Bytes) : Type 0 where
    pub url : Bytes
    pub some_url : url ≢ []
    pub set : cfg.llm_base_url ≢ [] → url ≡ cfg.llm_base_url
    pub unset :
        cfg.llm_base_url ≡ []
        → (d : Defaults) × (lookup (provider_name cfg) provider_defaults ≡ some d)
          × (url ≡ d.base_url)
    pub stripped : IsStripped url base

  -- A mock adapter is for no name or "mock"; another one has what its requests need.
  abbrev pub IsComplete : Config → Adapter → Type 0
  IsComplete cfg (mock_adapter addr) =
      (addr ≡ cfg.mock_llm_addr) × ((provider_name cfg ≡ []) ⊎ (provider_name cfg ≡ codes "mock"))
  IsComplete cfg (openai_compat_adapter a) =
      (provider_name cfg ≢ [])
      × (provider_name cfg ≢ codes "mock")
      × (a.api_key ≡ cfg.llm_api_key)
      × (a.api_key ≢ [])
      × IsBaseUrl cfg a.base_url
      × (a.model ≢ [])
      × (cfg.llm_model ≢ [] → a.model ≡ cfg.llm_model)

  made :
      (cfg : Config) (a b : Adapter)
      → ◌≡◌ {A = Result ProviderError Adapter} (ok a) (ok b)
      → IsComplete cfg a
      → IsComplete cfg b
  made cfg a b same c = let same' : b ≡ a = cc same in rw same' c

  custom_url :
      (cfg : Config) → cfg.llm_base_url ≢ [] → IsBaseUrl cfg (trim_slashes cfg.llm_base_url)
  custom_url cfg h = record {
    url = cfg.llm_base_url;
    some_url = h;
    set = λ s. refl;
    unset = λ e. absurd (h e);
    stripped = trim_slashes-IsStripped cfg.llm_base_url;
  }

  known_url :
      (cfg : Config) (d : Defaults)
      → lookup (provider_name cfg) provider_defaults ≡ some d
      → d.base_url ≢ []
      → IsBaseUrl cfg (trim_slashes (or_default cfg.llm_base_url d.base_url))
  known_url cfg d e b = record {
    url = or_default cfg.llm_base_url d.base_url;
    some_url = or_default-filled _ _ b;
    set = λ s. or_default-set _ _ s;
    unset = λ s. (d, e, or_default-unset _ _ s);
    stripped = trim_slashes-IsStripped (or_default cfg.llm_base_url d.base_url);
  }

  -- When `New` succeeds, it gives the mock adapter at its configured address exactly for the names
  -- "" and "mock", after trimming and lowering. Otherwise it gives an adapter with the configured API
  -- key, which is not empty; with the configured model or, where none is, one that is not empty; and
  -- with the configured base URL or, where none is, the default of the named provider. That URL is not
  -- empty, and the adapter keeps it without the slashes at its end.
  pub new-IsComplete : (cfg : Config) (a : Adapter) → new cfg ≡ ok a → IsComplete cfg a
  unfolding new custom known new_adapter
  new-IsComplete cfg a h =
      elim (Bool-cases (equal (provider_name cfg) [] || equal (provider_name cfg) (codes "mock"))) [
        | inl e ↦ made cfg _ a (rw (new, e) at h) (refl, named e)
        | inr n ↦ elim (Bool-cases (equal (provider_name cfg) (codes "custom"))) [
          | inl c ↦ elim (Bool-cases (equal cfg.llm_base_url [])) [
            | inl b ↦ cc (rw (new, n, c, custom, b) at h)
            | inr b ↦ elim (Bool-cases (equal cfg.llm_api_key [])) [
              | inl k ↦ cc (rw (new, n, c, custom, b, k) at h)
              | inr k ↦ made cfg _ a (rw (new, n, c, custom, b, k) at h) (
                unnamed n,
                unmocked n,
                refl,
                filled _ k,
                custom_url cfg (filled _ b),
                or_default-filled _ (codes "default") (λ f. cc f),
                λ m. or_default-set _ _ m,
              )
            ]
          ]
          | inr c ↦ elim (Option-cases (lookup (provider_name cfg) provider_defaults)) [
            | inl e ↦ cc (rw (new, n, c, known, e) at h)
            | inr (d, e) ↦ elim (Bool-cases (equal cfg.llm_api_key [])) [
              | inl k ↦ cc (rw (new, n, c, known, e, k) at h)
              | inr k ↦
                  let (b, m) = provider_defaults-filled (provider_name cfg) d e in
                  made cfg _ a (rw (new, n, c, known, e, k) at h) (
                    unnamed n,
                    unmocked n,
                    refl,
                    filled _ k,
                    known_url cfg d e b,
                    or_default-filled _ _ m,
                    λ m. or_default-set _ _ m,
                  )
            ]
          ]
        ]
      ]
    where
      named :
          equal (provider_name cfg) [] || equal (provider_name cfg) (codes "mock") ≡ true
          → (provider_name cfg ≡ []) ⊎ (provider_name cfg ≡ codes "mock")
      named e = elim ((or_iff _ _).0 e) [
        | inl f ↦ inl ((equal_iff _ _).0 f)
        | inr f ↦ inr ((equal_iff _ _).0 f)
      ]

      unnamed :
          equal (provider_name cfg) [] || equal (provider_name cfg) (codes "mock") ≡ false
          → provider_name cfg ≢ []
      unnamed n f = cc (
        n,
        (or_iff (equal (provider_name cfg) []) (equal (provider_name cfg) (codes "mock"))).1
            (inl ((equal_iff (provider_name cfg) []).1 f)),
      )

      unmocked :
          equal (provider_name cfg) [] || equal (provider_name cfg) (codes "mock") ≡ false
          → provider_name cfg ≢ codes "mock"
      unmocked n f = cc (
        n,
        (or_iff (equal (provider_name cfg) []) (equal (provider_name cfg) (codes "mock"))).1
            (inr ((equal_iff (provider_name cfg) (codes "mock")).1 f)),
      )
