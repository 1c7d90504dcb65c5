-- ===== src/Config.antt =====
-- internal/config/config.go: the configuration, from the variables of the environment.
pub mod Numbers
pub mod Load
pub mod Denotation
