-- ===== src/Adapters.antt =====
-- internal/provider: the adapters. encoding/json and net/http are parameters.
pub mod Http
pub mod Mock
pub mod OpenAi
pub mod Events
pub mod Newlines
