-- ===== src/Revocation.antt =====
-- internal/revocation: certificate revocation lists and OCSP.
pub mod Crl
pub mod Ocsp
pub mod Entries
pub mod Publishing
pub mod Agreement
pub mod Status
pub mod Reading
