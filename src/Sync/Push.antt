-- ===== src/Sync/Push.antt =====
-- `push` of sync-event.service.ts: a batch of raw events, one after the other.
pub mod Keeps
pub mod Guarantees
pub mod Answers
pub mod Malformed
pub mod Domain
pub mod Tenants
pub mod Retry
use tatuzin.Prelude.{
  ℕ, suc, String, Bool, true, false, not, ◌&&◌, Option, none, some, List, [], ◌∷◌, ◌++◌, ◌==◌, ltb,
  get_or, or_else, length, if◌then◌else◌,
}
use tatuzin.Prelude.Text.{trim}
use tatuzin.Payload.Json.{Json, Fields, Runtime, get}
use tatuzin.Payload.Read.{as_record, string_field}
use tatuzin.Payload.Identity.{PushEvent, sync_metadata_for}
use tatuzin.Exec.{Exec, pure, throw, app_error, ◌>>=◌, ◌>>◌}
use tatuzin.Sync.Types.{Context, EventStatus, Store, Materializer, warn}
use tatuzin.Sync.Tables.{create_event, create_incident, get_current_version}
use tatuzin.Sync.Schema.{parse_batch, parse_event}
use tatuzin.Sync.Event.{Bucket, Item, row_of, valid_date}
use tatuzin.Sync.Process.{Answer, process_event}

-- the four lists of the reply, in the order of the batch
pub record Buckets : Type 0 where
  pub accepted : List Item
  pub duplicates : List Item
  pub rejected : List Item
  pub conflicts : List Item

abbrev pub no_items : Buckets
no_items = record { accepted = []; duplicates = []; rejected = []; conflicts = [] }

unfoldable pub put : Answer → Buckets → Buckets
put (Bucket.accepted, item) b = record b { accepted = b.accepted ++ item ∷ [] }
put (Bucket.duplicates, item) b = record b { duplicates = b.duplicates ++ item ∷ [] }
put (Bucket.rejected, item) b = record b { rejected = b.rejected ++ item ∷ [] }
put (Bucket.conflicts, item) b = record b { conflicts = b.conflicts ++ item ∷ [] }

pub record Reply : Type 0 where
  pub current_server_version : ℕ
  pub buckets : Buckets

abbrev pub max_events_per_push : ℕ
max_events_per_push = 100

-- `this.stringField(raw, key) ?? "unknown"`
abbrev pub raw_field : Json → String → String
raw_field raw key = get_or (string_field (get (as_record (some raw)) key)) "unknown"

module _ (js : Runtime) (is_datetime : String → Bool) {D : Type 0} (m : Materializer D) where
  -- `normalizeEvent`
  unfoldable pub normalize_event : PushEvent → PushEvent
  unfolding sync_metadata_for trim
  normalize_event event =
      let metadata = sync_metadata_for js event event.payload in
      record event {
        operation = js.to_lower_case (trim event.operation);
        entity = trim event.entity;
        feature = trim event.feature;
        event_id = trim event.event_id;
        entity_local_id = or_else metadata.entity_local_id event.entity_local_id;
        entity_server_id = or_else metadata.entity_server_id event.entity_server_id;
      }

  -- the event that `rejectMalformedEvent` stores
  abbrev malformed_event : Json → PushEvent
  malformed_event raw = record {
    event_id = raw_field raw "eventId";
    feature = raw_field raw "feature";
    entity = raw_field raw "entity";
    operation = raw_field raw "operation";
    entity_local_id = string_field (get (as_record (some raw)) "entityLocalId");
    entity_server_id = string_field (get (as_record (some raw)) "entityServerId");
    occurred_at = get_or (string_field (get (as_record (some raw)) "occurredAt")) "";
    payload = as_record (get (as_record (some raw)) "payload");
  }

  -- `createRejectedSyncEvent` for a malformed event
  store_malformed : Context → Json → Exec (Store D) (Unit {0})
  store_malformed ctx raw = do
    create_event (
        row_of ctx (malformed_event raw)
          (valid_date js m ctx (string_field (get (as_record (some raw)) "occurredAt")))
          EventStatus.rejected (malformed_event raw).entity_server_id none
          (some "INVALID_SYNC_EVENT") none)
    pure tt

  -- `rejectMalformedEvent`
  unfoldable pub reject_malformed_event : Context → Json → Exec (Store D) Item
  unfolding store_malformed
  reject_malformed_event ctx raw = do
    if raw_field raw "eventId" == "unknown" then pure tt else store_malformed ctx raw
    create_incident ctx none "INVALID_SYNC_EVENT" warn
    pure (record {
      event_id = raw_field raw "eventId";
      entity = raw_field raw "entity";
      operation = raw_field raw "operation";
      server_version = none;
      entity_server_id = none;
      code = some "INVALID_SYNC_EVENT";
    })

  push_parsed : Context → Json → Option PushEvent → Exec (Store D) Answer
  push_parsed ctx raw none = do item ← reject_malformed_event ctx raw; pure (Bucket.rejected, item)
  push_parsed ctx raw (some event) = process_event js m ctx (normalize_event event)

  -- the body of the loop
  unfoldable pub push_one : Context → Json → Exec (Store D) Answer
  unfolding push_parsed
  push_one ctx raw = push_parsed ctx raw (parse_event is_datetime raw)

  -- the loop over the batch
  unfoldable pub push_all : Context → List Json → Buckets → Exec (Store D) Buckets
  unfolding push_one put
  push_all ctx [] b = pure b
  push_all ctx (raw ∷ rest) b = do answer ← push_one ctx raw; push_all ctx rest (put answer b)

  push_batch : Context → Option (List Json) → Exec (Store D) Reply
  push_batch ctx none = do
    create_incident ctx none "INVALID_SYNC_BATCH" warn
    throw (app_error 422 "INVALID_SYNC_BATCH")
  push_batch ctx (some events) =
      if ltb max_events_per_push (length events)
      then (do
        create_incident ctx none "SYNC_BATCH_TOO_LARGE" warn
        throw (app_error 413 "SYNC_BATCH_TOO_LARGE"))
      else (do
        buckets ← push_all ctx events no_items
        version ← get_current_version ctx.company_id
        pure (record { current_server_version = version; buckets = buckets }))

  -- `push`
  unfoldable pub push : Context → Json → Exec (Store D) Reply
  unfolding push_batch
  push ctx body = push_batch ctx (parse_batch body)
