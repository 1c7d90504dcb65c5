-- ===== src/Guardrails.antt =====
-- internal/guardrails/input: the scanner of prompts.
pub mod Arithmetic
pub mod Patterns
pub mod Signals
pub mod Scanner
pub mod Score
pub mod Verdicts
pub mod Combine
pub mod Reach
