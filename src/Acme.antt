-- ===== src/Acme.antt =====
-- internal/acme: the JWS and JWK primitives.
pub mod Types
pub mod Jws
