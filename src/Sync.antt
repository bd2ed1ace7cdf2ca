-- ===== src/Sync.antt =====
-- The operational sync of backend/src/modules/sync.
pub mod Types
pub mod Tables
pub mod Order
pub mod Schema
pub mod Event
pub mod Stored
pub mod Process
pub mod Push
pub mod Numbering
pub mod Pull
pub mod Conflicts
