-- ===== src/Identity.antt =====
-- apps/backend/src/identity: accounts, sessions and who may do what.
pub mod Throttle
pub mod Users
pub mod Service
pub mod Guards
pub mod Tests
