-- ===== src/Tests.antt =====
-- The theorems on small inputs, and runs of the definitions. No part of the Go sources is modelled
-- here.
mod Cache
mod Scaled
mod Guardrails
mod Patterns
mod Adapters
mod Config
mod Mockllm
mod Throttle
mod Streaming
mod Policy
mod Gateway
mod Ratelimit
