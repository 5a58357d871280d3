-- ===== src/Tests.antt =====
-- Concrete inputs, and the theorems at those inputs. The platform of the tests measures a text where
-- a real one digests or parses it.
pub mod Data
mod Policy
mod Provider
mod Repository
mod Service
mod Session
pub mod Config
mod App
mod Migrations
mod Visit
mod Http
mod Forged
mod Isolation
