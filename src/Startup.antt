-- ===== src/Startup.antt =====
-- cmd/trustmated/main.go: from the configuration to the handlers' dependencies.
pub mod Service
pub mod Lifetime
