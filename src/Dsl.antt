-- ===== src/Dsl.antt =====
-- internal/policy/dsl: the policy language.
pub mod Token
pub mod Outcome
pub mod Lexer
pub mod Parser
pub mod Runtime
pub mod Compiler
