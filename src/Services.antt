-- ===== src/Services.antt =====
-- The `services` package: the authentication service and the readiness check.
pub mod Authentication
pub mod Readiness
