-- ===== src/Gateway.antt =====
-- internal/gateway/gateway.go and internal/auth: the requests, from the key to the reply.
pub mod Auth
pub mod Server
pub mod Handlers
pub mod Middleware
pub mod Screening
pub mod Limits
pub mod Outage
pub mod Provider
pub mod Admission
pub mod Scanned
pub mod Charges
pub mod Watcher
pub mod Wiring
pub mod Untouched
pub mod Throttle
