-- ===== src/Gateway.antt =====
-- Parts of services/gateway: who may pass.
pub mod Hmac
mod Tests
