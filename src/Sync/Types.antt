-- ===== src/Sync/Types.antt =====
-- The rows and the inputs of backend/src/modules/sync: the models SyncEvent, SyncCheckpoint,
-- SyncConflict, SyncIncident and CompanySyncState of backend/prisma/schema.prisma, and what
-- materializer.types.ts names. The texts of messages, which no code reads, are left out.
use tatuzin.Prelude.{ℕ, String, Bool, true, false, Option, List, ◌&&◌, ◌==◌}
use tatuzin.Prelude.Int.{ℤ}
use tatuzin.Payload.Json.{Fields}
use tatuzin.Payload.Identity.{PushEvent}
use tatuzin.Exec.{Exec}

pub data EventStatus : Type 0 where
  pending accepted duplicate rejected conflict failed : EventStatus

pub data ConflictStatus : Type 0 where
  opened resolved ignored : ConflictStatus

-- What `AppContext` gives the sync services, and the clock as the request reads it.
pub record Context : Type 0 where
  pub company_id : String
  pub user_id : String
  pub device_id : String
  pub role : String
  pub permissions : List String
  pub now : ℤ

pub record SyncEvent : Type 0 where
  pub id : ℕ
  pub company_id : String
  pub device_id : String
  pub user_id : String
  pub event_id : String
  pub feature : String
  pub entity : String
  pub operation : String
  pub entity_local_id : Option String
  pub entity_server_id : Option String
  pub occurred_at : ℤ
  pub payload : Fields
  pub status : EventStatus
  pub server_version : Option ℕ
  pub rejection_code : Option String
  pub materialized_at : Option ℤ

pub record Checkpoint : Type 0 where
  pub company_id : String
  pub device_id : String
  pub feature : String
  pub last_server_version : ℕ
  pub last_pushed_at : Option ℤ
  pub last_pulled_at : Option ℤ

-- How a conflict was resolved: by hand, with what the request says, or by a reprocessing.
pub data Resolution : Type 0 where
  by_hand : Fields → Resolution
  by_reprocess : EventStatus → Resolution

pub record Conflict : Type 0 where
  pub id : ℕ
  pub company_id : String
  pub device_id : String
  pub user_id : String
  pub sync_event_id : ℕ
  pub entity : String
  pub entity_local_id : Option String
  pub entity_server_id : Option String
  pub code : String
  pub status : ConflictStatus
  pub resolution : Option Resolution
  pub resolved_at : Option ℤ
  pub resolved_by_user_id : Option String

pub data Severity : Type 0 where
  warn error : Severity

pub record Incident : Type 0 where
  pub company_id : String
  pub device_id : String
  pub user_id : String
  pub sync_event_id : Option ℕ
  pub code : String
  pub severity : Severity

pub record SyncState : Type 0 where
  pub company_id : String
  pub current_version : ℕ
  pub server_first_snapshot_version : ℕ

-- The tables of the sync, in the order of creation, with the next row id; `domain` holds the
-- tables that only the materializers read and write.
pub record Store (D : Type 0) : Type 0 where
  pub states : List SyncState
  pub events : List SyncEvent
  pub checkpoints : List Checkpoint
  pub conflicts : List Conflict
  pub incidents : List Incident
  pub next_id : ℕ
  pub domain : D

-- `SyncMaterializerResult`. In `accepted` the date may be absent (`none`) or null (`some none`).
pub data Outcome : Type 0 where
  accepted : (entity_server_id : Option String) (materialized_at : Option (Option ℤ)) → Outcome
  duplicate : (entity_server_id : Option String) (server_version : Option ℕ) → Outcome
  rejected conflict deferred : (code : String) → Outcome

-- What the event service asks of the materializers, and of the two tables with a
-- `lastLocalSequence`. A materializer reads the stored events and writes only its own
-- tables; its second argument is `sourceDeviceId`.
pub record Materializer (D : Type 0) : Type 0 where
  pub materialize : Context → Option String → PushEvent → Fields → List SyncEvent → Exec D Outcome
  pub order_last_sequence : String → String → D → Option ℤ
  pub session_last_sequence : String → String → D → Option ℤ

abbrev pub is_status : EventStatus → EventStatus → Bool
is_status pending pending = true
is_status accepted accepted = true
is_status duplicate duplicate = true
is_status rejected rejected = true
is_status conflict conflict = true
is_status failed failed = true
is_status _ _ = false

-- The unique key (companyId, deviceId, eventId).
abbrev pub has_key : String → String → String → SyncEvent → Bool
has_key company device event_id e =
    e.company_id == company && e.device_id == device && e.event_id == event_id
