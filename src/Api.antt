-- ===== src/Api.antt =====
-- The `api` package: cookies, dependencies, routes, and the middleware that hides the callback's query.
pub mod AuthCookies
pub mod Dependencies
pub mod Routes
pub mod QueryRedaction
pub mod Health
