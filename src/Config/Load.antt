-- ===== src/Config/Load.antt =====
-- internal/config/config.go: `Load`. `env` is os.Getenv: it gives the empty text for a variable that
-- is not set.
use llm_guardrail_gateway.Base.{ℤ, pos, Bytes, codes, equal, none, some, [], if◌then◌else◌}
use llm_guardrail_gateway.Config.Numbers.{parse_int}

pub record Config : Type 0 where
  pub listen_addr : Bytes
  pub mock_llm_addr : Bytes
  pub max_body_bytes : ℤ
  pub log_level : Bytes
  pub window_size : ℤ
  pub policy_file : Bytes
  pub redis_addr : Bytes
  pub redis_password : Bytes
  pub rate_limit_per_minute : ℤ
  pub daily_token_quota : ℤ
  pub llm_provider : Bytes
  pub llm_api_key : Bytes
  pub llm_model : Bytes
  pub llm_base_url : Bytes

module _ (env : Bytes → Bytes) where
  unfoldable pub get_env : Bytes → Bytes → Bytes
  get_env key fallback = let v = env key in if equal v [] then fallback else v

  unfoldable pub get_env_int64 : Bytes → ℤ → ℤ
  get_env_int64 key fallback =
      let v = env key in
      if equal v [] then fallback else elim (parse_int v) [ some n ↦ n | none ↦ fallback ]

  unfoldable pub get_env_int : Bytes → ℤ → ℤ
  get_env_int key fallback =
      let v = env key in
      if equal v [] then fallback else elim (parse_int v) [ some n ↦ n | none ↦ fallback ]

  unfoldable pub load : Config
  unfolding get_env get_env_int64 get_env_int
  load = record {
    listen_addr = get_env (codes "GATEWAY_LISTEN_ADDR") (codes ":8080");
    mock_llm_addr = get_env (codes "MOCK_LLM_ADDR") (codes "http://localhost:9090");
    max_body_bytes = get_env_int64 (codes "GATEWAY_MAX_BODY_BYTES") (pos 524288);
    log_level = get_env (codes "GATEWAY_LOG_LEVEL") (codes "info");
    window_size = get_env_int (codes "GATEWAY_WINDOW_SIZE") (pos 512);
    policy_file = get_env (codes "GATEWAY_POLICY_FILE") (codes "configs/dev.policy");
    redis_addr = get_env (codes "REDIS_ADDR") (codes "");
    redis_password = get_env (codes "REDIS_PASSWORD") (codes "");
    rate_limit_per_minute = get_env_int (codes "RATE_LIMIT_PER_MINUTE") (pos 60);
    daily_token_quota = get_env_int64 (codes "DAILY_TOKEN_QUOTA") (pos 100000);
    llm_provider = get_env (codes "LLM_PROVIDER") (codes "mock");
    llm_api_key = get_env (codes "LLM_API_KEY") (codes "");
    llm_model = get_env (codes "LLM_MODEL") (codes "");
    llm_base_url = get_env (codes "LLM_BASE_URL") (codes "");
  }
