-- ===== src/Sync/Push/Malformed.antt =====
-- Raw events that do not pass the schema.
use tatuzin.Payload.Json.{Json}
