-- ===== src/Mockllm.antt =====
-- cmd/mockllm/main.go: the mock server for development.
pub mod Fields
pub mod Handlers
pub mod Leak
