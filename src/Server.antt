-- ===== src/Server.antt =====
-- The HTTP backend's accounting of offline payments.
pub mod Models
pub mod Session
pub mod Revocation
pub mod Protocol
pub mod Reserves
pub mod Claims
pub mod Updates
pub mod Topup
pub mod Grants
pub mod Issue
pub mod Apply
pub mod Trust
pub mod Validation
pub mod Evidence
mod Tests
