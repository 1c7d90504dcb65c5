-- ===== src/Streaming.antt =====
-- internal/streaming/window.go, and the writer of internal/gateway/gateway.go that drives it.
pub mod Sse
pub mod Client
pub mod Window
pub mod Patterns
pub mod Writer
pub mod Ending
