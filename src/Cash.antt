-- ===== src/Cash.antt =====
-- The cash sessions and movements that the sync materializes: the models CashSession and CashEvent
-- of backend/prisma/schema.prisma, and the materializers of backend/src/modules/sync/materializers
-- that write them.
pub mod Types
pub mod Permissions
pub mod Session
pub mod Movement
pub mod Dispatch
