-- ===== src/Payload.antt =====
-- Operational payloads: JSON values and the readers of
-- backend/src/modules/sync/materializers/payload-utils.ts.
pub mod Json
pub mod Read
pub mod Identity
pub mod Laws
