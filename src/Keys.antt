-- ===== src/Keys.antt =====
-- The service services/keys: public prekeys of devices, kept in Postgres tables.
pub mod Types
pub mod Store
pub mod Service
pub mod Spent
pub mod Keeping
pub mod HandOut
mod Tests
