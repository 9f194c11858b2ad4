-- ===== src/Auth/Store.antt =====
-- services/auth/internal/store: the tables of sessions, devices, users and passwords.
pub mod Sessions
pub mod Devices
pub mod Users
