-- ===== src/Bootstrap.antt =====
-- internal/bootstrap: the first run, and the identities that a start of the service loads.
pub mod Generate
pub mod Output
pub mod Run
pub mod Loading
pub mod Growth
pub mod Once
pub mod Serving
