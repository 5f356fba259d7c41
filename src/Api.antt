-- ===== src/Api.antt =====
-- internal/api: the HTTP handlers.
pub mod Http
pub mod Deps
pub mod Auth
pub mod Authorization
pub mod Growth
pub mod Issuing
pub mod Certificates
pub mod Clients
pub mod Acme
pub mod Revocation
pub mod Tsa
pub mod Profiles
pub mod Router
pub mod Runs
pub mod Ledger
