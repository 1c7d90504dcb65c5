-- ===== src/Ratelimit.antt =====
-- internal/ratelimit: the sliding window of requests and the daily tokens.
pub mod Limiter
pub mod Quota
