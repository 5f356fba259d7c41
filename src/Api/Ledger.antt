-- ===== src/Api/Ledger.antt =====
-- What a successful answer of the certificate API means for the ledger, the audit log and the caches.
pub mod Revocation
pub mod Publication
pub mod Rotation
pub mod Issuance
pub mod Finalization
pub mod Compensation
pub mod Enrollment
