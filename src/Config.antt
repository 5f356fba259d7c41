-- ===== src/Config.antt =====
-- internal/config: the configuration, its defaults, its overrides and its validation.
pub mod Types
pub mod Load
pub mod Precedence
pub mod Validation
