-- ===== src/Sync/Event.antt =====
-- SyncEventService of sync-event.service.ts: one event, from the duplicate check to its bucket.
use tatuzin.Prelude.{
  ℕ, String, Bool, false, ◌&&◌, Option, none, some, List, [], ◌∷◌, ◌==◌, get_or, is_some, includes,
  filter, take, if◌then◌else◌,
}
use tatuzin.Prelude.Int.{ℤ, ltb_ℤ}
use tatuzin.Payload.Json.{Runtime}
use tatuzin.Payload.Read.{persistable_local_sequence}
use tatuzin.Payload.Identity.{PushEvent, sync_metadata_for, local_sequence_for, same}
use tatuzin.Exec.{Exec, Result, pure, gets, ◌>>=◌}
use tatuzin.Sync.Types.{
  Context, SyncEvent, EventStatus, Store, Outcome, Materializer, is_status, Conflict, opened,
}
use tatuzin.Sync.Order.{by_version_desc}

pub data Bucket : Type 0 where
  accepted duplicates rejected conflicts : Bucket

-- `PushItemResult`, with the code of a `RejectedItemResult`
pub record Item : Type 0 where
  pub event_id : String
  pub entity : String
  pub operation : String
  pub server_version : Option ℕ
  pub entity_server_id : Option String
  pub code : Option String

-- ALLOWED_LOCAL_FIRST_SYNC_ENTITIES
abbrev pub local_first_entities : List String
local_first_entities =
    "cashSession" ∷ "cashMovement" ∷ "operationalOrder" ∷ "operationalOrderItem" ∷ "sale"
    ∷ "saleItem" ∷ "payment" ∷ "receipt" ∷ "stockReservation" ∷ "stockDeduction"
    ∷ "offlineOperationLog" ∷ []

-- `isLocalFirstEntity`
abbrev pub is_local_first_entity : String → Bool
is_local_first_entity entity = includes local_first_entities entity

-- `isAllowedOperation`
abbrev pub is_allowed_operation : String → Bool
is_allowed_operation operation =
    includes ("create" ∷ "update" ∷ "delete" ∷ "upsert" ∷ "append" ∷ []) operation

-- The row that the service creates for an event; `create_event` gives it its id.
abbrev pub row_of :
    Context
    → PushEvent
    → ℤ
    → EventStatus
    → Option String
    → Option ℕ
    → Option String
    → Option ℤ
    → SyncEvent
row_of ctx event at status server_id version code materialized_at = record {
  id = 0;
  company_id = ctx.company_id;
  device_id = ctx.device_id;
  user_id = ctx.user_id;
  event_id = event.event_id;
  feature = event.feature;
  entity = event.entity;
  operation = event.operation;
  entity_local_id = event.entity_local_id;
  entity_server_id = server_id;
  occurred_at = at;
  payload = event.payload;
  status = status;
  server_version = version;
  rejection_code = code;
  materialized_at = materialized_at;
}

abbrev pub item_of : PushEvent → Option ℕ → Option String → Option String → Item
item_of event version server_id code = record {
  event_id = event.event_id;
  entity = event.entity;
  operation = event.operation;
  server_version = version;
  entity_server_id = server_id;
  code = code;
}

-- the item of the stored event that a duplicate repeats
abbrev pub item_of_row : SyncEvent → Item
item_of_row row = record {
  event_id = row.event_id;
  entity = row.entity;
  operation = row.operation;
  server_version = row.server_version;
  entity_server_id = row.entity_server_id;
  code = none;
}

abbrev pub conflict_of : Context → SyncEvent → String → Conflict
conflict_of ctx row code = record {
  id = 0;
  company_id = ctx.company_id;
  device_id = row.device_id;
  user_id = row.user_id;
  sync_event_id = row.id;
  entity = row.entity;
  entity_local_id = row.entity_local_id;
  entity_server_id = row.entity_server_id;
  code = code;
  status = opened;
  resolution = none;
  resolved_at = none;
  resolved_by_user_id = none;
}

-- `materializedAt === undefined ? new Date() : materializedAt`
abbrev pub date_or_now : ℤ → Option (Option ℤ) → Option ℤ
date_or_now now none = some now
date_or_now now (some date) = date

module _ (js : Runtime) {D : Type 0} (m : Materializer D) where
  -- `new Date(text)`, where the text was validated as a date
  abbrev pub date : Context → String → ℤ
  date ctx text = get_or (js.date_of text) ctx.now

  -- `validIsoDate`, as a date
  abbrev pub valid_date : Context → Option String → ℤ
  valid_date ctx none = ctx.now
  valid_date ctx (some text) = get_or (js.date_of text) ctx.now

  -- `findDomainLastLocalSequence`
  find_domain_last_local_sequence : Context → String → String → D → Option ℤ
  find_domain_last_local_sequence ctx entity local_id domain =
      if entity == "operationalOrder"
      then m.order_last_sequence ctx.company_id local_id domain
      else if entity == "cashSession"
      then m.session_last_sequence ctx.company_id local_id domain
      else none

  -- the events that `detectStaleLocalSequence` reads, newest first
  previous_events : Context → PushEvent → String → List SyncEvent → List SyncEvent
  previous_events ctx event local_id events = take 20 (
      by_version_desc (
        filter
          (λ e.
            e.company_id == ctx.company_id
            && e.entity == event.entity
            && same e.entity_local_id (some local_id)
            && is_status e.status EventStatus.accepted
            && is_some e.server_version)
          events))

  -- the loop over the previous events: the first that has a sequence decides
  is_stale_against : PushEvent → String → ℤ → List SyncEvent → Bool
  is_stale_against event local_id sequence [] = false
  is_stale_against event local_id sequence (previous ∷ rest) =
      elim (local_sequence_for js
        (record event {
          event_id = previous.event_id;
          entity_local_id = some local_id;
          entity_server_id = none;
          payload = previous.payload;
        })
        previous.payload) [
          | none ↦ is_stale_against event local_id sequence rest
          | some latest ↦ ltb_ℤ sequence latest
        ]

  stale_sequence : Context → PushEvent → List SyncEvent → D → Option ℤ → Option String → Bool
  unfolding find_domain_last_local_sequence previous_events is_stale_against
  stale_sequence ctx event events domain (some sequence) (some local_id) =
      if is_some (find_domain_last_local_sequence ctx event.entity local_id domain)
        && is_some (persistable_local_sequence (some sequence))
      then false
      else is_stale_against event local_id sequence (previous_events ctx event local_id events)
  stale_sequence ctx event events domain _ _ = false

  -- `detectStaleLocalSequence`, which answers a conflict or null
  unfoldable pub is_stale_local_sequence : Context → PushEvent → Store D → Bool
  unfolding stale_sequence
  is_stale_local_sequence ctx event s =
      let metadata = sync_metadata_for js event event.payload in
      includes ("update" ∷ "upsert" ∷ []) event.operation
      && stale_sequence ctx event s.events s.domain metadata.local_sequence metadata.entity_local_id

  abbrev pub with_domain : Store D → Result Outcome × D → Result Outcome × Store D
  with_domain s (r, domain) = (r, record s { domain = domain })

  -- `this.materializer.materialize`
  unfoldable pub materialize : Context → Option String → PushEvent → Exec (Store D) Outcome
  materialize ctx source event s =
      with_domain s (m.materialize ctx source event event.payload s.events s.domain)

  -- `detectStaleLocalSequence(…) ?? materialize(…)`
  unfoldable pub outcome_of : Context → PushEvent → Exec (Store D) Outcome
  unfolding is_stale_local_sequence materialize
  outcome_of ctx event = do
    stale ← gets (λ s. is_stale_local_sequence ctx event s)
    if stale then pure (Outcome.conflict "STALE_LOCAL_SEQUENCE") else materialize ctx none event
