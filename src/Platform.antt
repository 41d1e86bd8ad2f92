-- ===== src/Platform.antt =====
-- apps/backend/src/platform: the kernel that every module of the backend uses.
pub mod Permissions
pub mod Patterns
pub mod Catalog
pub mod Context
pub mod Http
pub mod Events
pub mod Bus
pub mod Tests
