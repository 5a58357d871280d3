-- ===== src/Repositories.antt =====
-- The `repositories` package, and the statements on a table that its queries are made of.
pub mod Table
pub mod LoginAttempts
pub mod AdminIdentities
pub mod AdminSessions
