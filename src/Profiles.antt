-- ===== src/Profiles.antt =====
-- internal/profiles: the issuance policies, built in and loaded from files.
pub mod Types
pub mod Registry
pub mod Versions
pub mod Config
pub mod Loading
pub mod Names
pub mod Storing
pub mod Admission
pub mod Reading
pub mod Swapping
