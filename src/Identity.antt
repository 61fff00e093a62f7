-- ===== src/Identity.antt =====
-- internal/app/identity.
pub mod Nick
pub mod Service
pub mod Logon
pub mod EnterFlow
mod Examples
