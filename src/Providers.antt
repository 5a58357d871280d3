-- ===== src/Providers.antt =====
-- The `providers` package: the Entra adapter over MSAL.
pub mod EntraOidc
pub mod EntraClient
