-- ===== src/Sync/Process.antt =====
-- `processEvent` of sync-event.service.ts: the checks before the transaction, the row and the
-- side records for each outcome, and what happens when the transaction throws.
pub mod Commit
pub mod Keeps
pub mod Retry
pub mod Outcomes
pub mod Domain
use tatuzin.Prelude.{
  ℕ, String, Bool, true, false, not, ◌&&◌, Option, none, some, List, [], ◌∷◌, ◌==◌, or_else, find?,
  if◌then◌else◌,
}
use tatuzin.Payload.Json.{Runtime}
use tatuzin.Payload.Identity.{PushEvent}
use tatuzin.Exec.{Exec, Error, pure, gets, transaction, catch, ◌>>=◌, ◌>>◌}
use tatuzin.Sync.Types.{
  Context, SyncEvent, EventStatus, Store, Outcome, Materializer, warn, error, has_key,
}
use tatuzin.Sync.Tables.{
  next_company_version, record_push, create_event, create_conflict, create_incident,
}
use tatuzin.Sync.Event.{
  Bucket, Item, is_local_first_entity, is_allowed_operation, row_of, item_of, item_of_row,
  conflict_of, date_or_now, date, valid_date, outcome_of,
}
use tatuzin.Sync.Stored.{reprocess_pending_dependents}

abbrev pub Answer : Type 0
Answer = Bucket × Item

module _ (js : Runtime) {D : Type 0} (m : Materializer D) where
  -- `rejectEvent`
  reject_event : Context → PushEvent → String → Bool → Exec (Store D) Item
  reject_event ctx event code incident = do
    row ← create_event (
        row_of ctx event (valid_date js m ctx (some event.occurred_at)) EventStatus.rejected
          event.entity_server_id none (some code) none)
    if incident then create_incident ctx (some row.id) code warn else pure tt
    pure (item_of event none event.entity_server_id (some code))

  -- `failEvent`
  fail_event : Context → PushEvent → Error → Exec (Store D) Answer
  fail_event ctx event exception = do
    row ← create_event (
        row_of ctx event (date js m ctx event.occurred_at) EventStatus.failed event.entity_server_id
          none (some "SYNC_MATERIALIZATION_FAILED") none)
    create_incident ctx (some row.id) "SYNC_MATERIALIZATION_FAILED" error
    pure (
      Bucket.rejected,
      item_of event none event.entity_server_id (some "SYNC_MATERIALIZATION_FAILED"),
    )

  abbrev stored :
      Context
      → PushEvent
      → EventStatus
      → Option String
      → Option ℕ
      → Option String
      → Exec (Store D) SyncEvent
  stored ctx event status server_id version code =
      create_event
        (row_of ctx event (date js m ctx event.occurred_at) status server_id version code none)

  -- the branches of the transaction, one for each outcome of the materializer
  unfoldable pub settle : Context → PushEvent → Outcome → Exec (Store D) Answer
  settle ctx event (Outcome.duplicate server_id version) = do
    row ←
        stored ctx event EventStatus.duplicate (or_else server_id event.entity_server_id) version
          none
    pure (Bucket.duplicates, item_of event row.server_version row.entity_server_id none)
  settle ctx event (Outcome.rejected code) = do
    row ← stored ctx event EventStatus.rejected event.entity_server_id none (some code)
    pure (Bucket.rejected, item_of event none row.entity_server_id (some code))
  settle ctx event (Outcome.deferred code) = do
    row ← stored ctx event EventStatus.pending event.entity_server_id none (some code)
    pure (Bucket.accepted, item_of event none row.entity_server_id none)
  settle ctx event (Outcome.conflict code) = do
    version ← next_company_version ctx.company_id
    row ← stored ctx event EventStatus.conflict event.entity_server_id (some version) none
    create_conflict (conflict_of ctx row code)
    record_push ctx ctx.device_id event.feature version
    create_incident ctx (some row.id) code warn
    pure (Bucket.conflicts, item_of event (some version) row.entity_server_id (some code))
  settle ctx event (Outcome.accepted server_id materialized_at) = do
    version ← next_company_version ctx.company_id
    row ← create_event (
        row_of ctx event (date js m ctx event.occurred_at) EventStatus.accepted
          (or_else server_id event.entity_server_id) (some version) none
          (date_or_now ctx.now materialized_at))
    record_push ctx ctx.device_id event.feature version
    if event.entity == "operationalOrder" then reprocess_pending_dependents js m ctx else pure tt
    pure (Bucket.accepted, item_of event (some version) row.entity_server_id none)

  unfoldable pub materialize_event : Context → PushEvent → Exec (Store D) Answer
  materialize_event ctx event = do outcome ← outcome_of js m ctx event; settle ctx event outcome

  rejected_as : Item → Answer
  rejected_as item = (Bucket.rejected, item)

  pub process_new : Context → PushEvent → Exec (Store D) Answer
  process_new ctx event =
      if not (is_local_first_entity event.entity)
      then (do item ← reject_event ctx event "ENTITY_NOT_LOCAL_FIRST" true; pure (rejected_as item))
      else if not (is_allowed_operation event.operation)
      then (do item ← reject_event ctx event "INVALID_OPERATION" false; pure (rejected_as item))
      else catch (transaction (materialize_event ctx event)) (fail_event ctx event)

  process_found : Context → PushEvent → Option SyncEvent → Exec (Store D) Answer
  process_found ctx event (some row) = pure (Bucket.duplicates, item_of_row row)
  process_found ctx event none = process_new ctx event

  abbrev pub find_event : Context → String → Store D → Option SyncEvent
  find_event ctx event_id s = find? (has_key ctx.company_id ctx.device_id event_id) s.events

  -- `processEvent`
  unfoldable pub process_event : Context → PushEvent → Exec (Store D) Answer
  unfolding process_found process_new materialize_event settle fail_event reject_event rejected_as
  process_event ctx event = do
    found ← gets (find_event ctx event.event_id)
    process_found ctx event found
