-- ===== src/CryptoCore.antt =====
-- The library services/crypto-core: X3DH session set-up and the Double Ratchet.
pub mod Types
pub mod Primitives
pub mod Random
pub mod Device
pub mod Session
pub mod Ratchet
pub mod State
pub mod Checked
mod Tests
mod SessionTests
pub mod Sample
