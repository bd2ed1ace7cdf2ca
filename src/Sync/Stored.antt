-- ===== src/Sync/Stored.antt =====
-- SyncEventService of sync-event.service.ts: events that are already stored are materialized again.
pub mod Keeps
pub mod Domain
use tatuzin.Prelude.{
  ℕ, String, Bool, true, false, not, ◌&&◌, ◌||◌, Option, none, some, List, [], ◌∷◌, ◌==◌, nat_eq,
  or_else, filter, find?, take, if◌then◌else◌,
}
use tatuzin.Payload.Json.{Runtime}
use tatuzin.Payload.Identity.{PushEvent}
use tatuzin.Exec.{
  Exec, Result, ok, err, pure, throw, gets, modify, transaction, app_error, failure, ◌>>=◌, ◌>>◌,
}
use tatuzin.Sync.Types.{
  Context, SyncEvent, EventStatus, Store, Outcome, Materializer, is_status, Conflict,
  ConflictStatus, opened, resolved, by_reprocess,
}
use tatuzin.Sync.Tables.{
  next_company_version, record_push, update_event, create_conflict, update_first,
}
use tatuzin.Sync.Event.{conflict_of, date_or_now, materialize}

-- the event that `materializeStoredEvent` builds from a stored row
abbrev pub event_of_row : Runtime → SyncEvent → PushEvent
event_of_row js row = record {
  event_id = row.event_id;
  feature = row.feature;
  entity = row.entity;
  operation = row.operation;
  entity_local_id = row.entity_local_id;
  entity_server_id = row.entity_server_id;
  occurred_at = js.iso_of row.occurred_at;
  payload = row.payload;
}

-- What `reprocessConflict` answers: the code of a conflict that it does not take up, or the outcome
-- of the new attempt, with the conflict resolved if that succeeded.
pub data Reprocessed : Type 0 where
  not_reprocessable : (code : String) → Reprocessed
  reprocessed unresolved : (outcome : EventStatus) → Reprocessed

abbrev pub is_open : ConflictStatus → Bool
is_open opened = true
is_open _ = false

module _ (js : Runtime) {D : Type 0} (m : Materializer D) where
  -- what follows the call of the materializer; the flag is `options.createConflict !== false`
  stored_outcome : Context → Bool → SyncEvent → Outcome → Exec (Store D) EventStatus
  stored_outcome ctx create_conflicts stored (Outcome.deferred code) = do
    update_event stored.id (λ e. record e { rejection_code = some code })
    pure EventStatus.pending
  stored_outcome ctx create_conflicts stored (Outcome.duplicate server_id version) = do
    update_event stored.id (λ e. record e {
      status = EventStatus.duplicate;
      entity_server_id = or_else server_id stored.entity_server_id;
      rejection_code = none;
    })
    pure EventStatus.duplicate
  stored_outcome ctx create_conflicts stored (Outcome.rejected code) = do
    update_event stored.id
        (λ e. record e { status = EventStatus.rejected; rejection_code = some code })
    pure EventStatus.rejected
  stored_outcome ctx create_conflicts stored (Outcome.conflict code) = do
    version ← next_company_version ctx.company_id
    row ← update_event stored.id (λ e. record e {
      status = EventStatus.conflict;
      server_version = some version;
      rejection_code = none;
    })
    if create_conflicts then create_conflict (conflict_of ctx row code) else pure tt
    record_push ctx row.device_id row.feature version
    pure EventStatus.conflict
  stored_outcome ctx create_conflicts stored (Outcome.accepted server_id materialized_at) = do
    version ← next_company_version ctx.company_id
    row ← update_event stored.id (λ e. record e {
      status = EventStatus.accepted;
      entity_server_id = or_else server_id stored.entity_server_id;
      server_version = some version;
      materialized_at = date_or_now ctx.now materialized_at;
      rejection_code = none;
    })
    record_push ctx row.device_id row.feature version
    pure EventStatus.accepted

  -- `materializeStoredEvent`; its answer "deferred" is the status `pending`
  unfoldable pub materialize_stored_event : Context → Bool → SyncEvent → Exec (Store D) EventStatus
  unfolding stored_outcome
  materialize_stored_event ctx create_conflicts stored = do
    outcome ← materialize js m ctx (some stored.device_id) (event_of_row js stored)
    stored_outcome ctx create_conflicts stored outcome

  -- the loop of `reprocessPendingOperationalOrderDependents`
  materialize_all : Context → List SyncEvent → Exec (Store D) (Unit {0})
  materialize_all ctx [] = pure tt
  materialize_all ctx (stored ∷ rest) = do
    materialize_stored_event ctx true stored
    materialize_all ctx rest

  is_pending_item : Context → SyncEvent → Bool
  is_pending_item ctx e =
      e.company_id == ctx.company_id
      && e.device_id == ctx.device_id
      && e.entity == "operationalOrderItem"
      && is_status e.status EventStatus.pending

  -- `reprocessPendingOperationalOrderDependents`
  unfoldable pub reprocess_pending_dependents : Context → Exec (Store D) (Unit {0})
  unfolding materialize_all is_pending_item
  reprocess_pending_dependents ctx = do
    rows ← gets (λ s. take 100 (filter (is_pending_item ctx) s.events))
    materialize_all ctx rows

  abbrev has_settled : EventStatus → Bool
  has_settled EventStatus.accepted = true
  has_settled EventStatus.duplicate = true
  has_settled _ = false

  -- the row of the conflict after a successful reprocessing
  abbrev settle : Context → EventStatus → Conflict → Conflict
  settle ctx outcome c = record c {
    status = resolved;
    resolution = some (by_reprocess outcome);
    resolved_at = some ctx.now;
    resolved_by_user_id = some ctx.user_id;
  }

  unfoldable pub attempt : Context → Conflict → SyncEvent → Exec (Store D) Reprocessed
  attempt ctx c stored = do
    outcome ← materialize_stored_event ctx false stored
    if has_settled outcome
        then modify
            (λ s. record s {
              conflicts = update_first (λ x. nat_eq x.id c.id) (settle ctx outcome) s.conflicts;
            })
            (reprocessed outcome)
        else pure (unresolved outcome)

  -- `conflict.syncEvent`, which the foreign key keeps present
  unfoldable pub event_of_conflict : Conflict → Store D → Option SyncEvent
  event_of_conflict c s = find? (λ e. nat_eq e.id c.sync_event_id) s.events

  take_up : Context → Conflict → Option SyncEvent → Exec (Store D) Reprocessed
  take_up ctx c none = throw failure
  take_up ctx c (some stored) =
      if not (is_open c.status && c.code == "OPERATIONAL_ORDER_NOT_FOUND")
      then pure (not_reprocessable c.code)
      else transaction (attempt ctx c stored)

  unfoldable pub found_conflict : Context → ℕ → Store D → Option Conflict
  found_conflict ctx id s =
      find? (λ c. nat_eq c.id id && c.company_id == ctx.company_id) s.conflicts

  reprocess_found : Context → Option Conflict → Exec (Store D) Reprocessed
  reprocess_found ctx none = throw (app_error 404 "SYNC_CONFLICT_NOT_FOUND")
  reprocess_found ctx (some c) = do stored ← gets (event_of_conflict c); take_up ctx c stored

  -- `reprocessConflict`
  unfoldable pub reprocess_conflict : Context → ℕ → Exec (Store D) Reprocessed
  unfolding reprocess_found found_conflict take_up event_of_conflict attempt
  reprocess_conflict ctx id = do found ← gets (found_conflict ctx id); reprocess_found ctx found
