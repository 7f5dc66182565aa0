-- ===== src/Pos.antt =====
-- The point of sale (pos_desktop/).
pub mod Rows
pub mod Statements
pub mod Database
pub mod Lock
pub mod Keys
pub mod Backend
pub mod Sync
mod Tests
