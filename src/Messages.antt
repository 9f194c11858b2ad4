-- ===== src/Messages.antt =====
-- The service services/messages: encrypted messages kept for their recipients.
pub mod Store
pub mod Service
pub mod Sent
pub mod Delivery
pub mod Refinement
pub mod Mailbox
pub mod Json
pub mod Http
mod Tests
mod HttpTests
