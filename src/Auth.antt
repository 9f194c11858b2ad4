-- ===== src/Auth.antt =====
-- The service services/auth: accounts, passwords, sessions with their tokens, and devices.
pub mod Password
pub mod UserAgent
pub mod Ip
pub mod Accounts
pub mod Claims
pub mod Devices
pub mod Tokens
pub mod Verify
pub mod Types
pub mod Store
pub mod Sample
mod Tests
mod TokenTests
mod AccountTests
