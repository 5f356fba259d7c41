-- ===== src/Api/Acme.antt =====
-- internal/api/acme.go: enrollment by RFC 8555 with External Account Binding.
pub mod Requests
pub mod Enrollment
pub mod Orders
