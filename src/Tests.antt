-- ===== src/Tests.antt =====
-- Concrete worlds, and the theorems applied to them.
pub mod Fixtures
mod StoreWitnesses
mod ApiWitnesses
mod ProfileWitnesses
mod RevocationWitnesses
mod TsaWitnesses
mod KeystoreWitnesses
mod ConfigWitnesses
mod BootstrapWitnesses
