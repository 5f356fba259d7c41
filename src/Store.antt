-- ===== src/Store.antt =====
-- internal/store: the records, the tables, and the SQLite repositories over them.
pub mod Records
pub mod Timestamp
pub mod Table
pub mod Certificates
pub mod ClientRoles
pub mod EabTokens
pub mod Accounts
pub mod Orders
pub mod Members
pub mod Inserting
pub mod Nonces
pub mod Audit
pub mod Profiles
pub mod Extends
pub mod Evolution
pub mod SingleUse
pub mod Claims
pub mod Replay
pub mod Revoking
