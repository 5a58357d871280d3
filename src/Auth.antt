-- ===== src/Auth.antt =====
-- The `auth` package: its values and exceptions, the login policy, and the opaque tokens.
pub mod Domain
pub mod Policy
pub mod Tokens
