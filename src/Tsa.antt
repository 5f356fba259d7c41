-- ===== src/Tsa.antt =====
-- internal/tsa: the time-stamp authority.
pub mod Responder
pub mod Identity
pub mod Times
pub mod Ledger
pub mod Reading
