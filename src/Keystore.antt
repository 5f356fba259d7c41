-- ===== src/Keystore.antt =====
-- internal/keystore: where the private keys live.
pub mod Types
pub mod Store
pub mod Files
pub mod Refs
pub mod FreshRefs
pub mod Backend
pub mod Generating
pub mod Reloading
pub mod Secrets
