-- ===== src/Wire.antt =====
-- The signed messages that wallets, terminals and the backend exchange (protocol_v3.py).
pub mod Json
pub mod Library
pub mod Parse
pub mod Keys
pub mod Checks
pub mod Kinds
pub mod Payload
pub mod Envelope
pub mod Verify
pub mod Select
pub mod Manifest
pub mod Binding
mod Declines
pub mod Samples
mod Tests
