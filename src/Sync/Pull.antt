-- ===== src/Sync/Pull.antt =====
-- `pull` and `getStatus` of sync-event.service.ts.
pub mod Rows
pub mod Paging
use tatuzin.Prelude.{
  ℕ, ◌+◌, String, Bool, true, false, not, ◌&&◌, ◌||◌, Option, none, some, List, [], ◌∷◌, ◌==◌, ltb,
  nat_eq, get_or, length, take, filter, find?, get_last?, includes, map, is_some, if◌then◌else◌,
}
use tatuzin.Exec.{Exec, pure, gets, ◌>>=◌, ◌>>◌}
use tatuzin.Sync.Types.{
  Context, SyncEvent, EventStatus, ConflictStatus, Conflict, Checkpoint, Store, SyncState, opened,
  resolved, ignored, is_status,
}
use tatuzin.Sync.Tables.{get_current_version, get_or_create_state, record_pull}
use tatuzin.Sync.Order.{by_version_asc}
use tatuzin.Sync.Event.{local_first_entities}

-- `SyncPullQueryInput`, already validated
pub record Query : Type 0 where
  pub since_version : ℕ
  pub features : List String
  pub limit : ℕ
  pub include_own_events : Bool

abbrev is_empty_list : List String → Bool
is_empty_list [] = true
is_empty_list (f ∷ fs) = false

abbrev is_settled : ConflictStatus → Bool
is_settled opened = false
is_settled resolved = true
is_settled ignored = true

-- no conflict of the event, or one that is neither resolved nor ignored
unfoldable pub conflict_is_live : List Conflict → SyncEvent → Bool
conflict_is_live conflicts e = elim (find? (λ c. nat_eq c.sync_event_id e.id) conflicts) [
  | none ↦ true
  | some c ↦ not (is_settled c.status)
]

-- accepted, or in a conflict that is live
unfoldable pub is_delivered : List Conflict → SyncEvent → Bool
unfolding conflict_is_live
is_delivered conflicts e =
    is_status e.status EventStatus.accepted
    || is_status e.status EventStatus.conflict && conflict_is_live conflicts e

unfoldable pub has_feature : Query → SyncEvent → Bool
has_feature q e = is_empty_list q.features || includes q.features e.feature

unfoldable pub is_from_device : Context → Query → SyncEvent → Bool
is_from_device ctx q e = q.include_own_events || not (e.device_id == ctx.device_id)

unfoldable pub is_listed : SyncEvent → Bool
is_listed e = includes local_first_entities e.entity

-- the conditions on the event alone: its tenant, entity, status, feature and device
unfoldable pub is_visible : Context → Query → List Conflict → SyncEvent → Bool
is_visible ctx q conflicts e =
    e.company_id == ctx.company_id
    && is_listed e
    && is_delivered conflicts e
    && has_feature q e
    && is_from_device ctx q e

-- `serverVersion: { gt: sinceVersion }`, false on null
abbrev pub is_after : ℕ → SyncEvent → Bool
is_after since e = elim e.server_version [ none ↦ false | some v ↦ ltb since v ]

abbrev pub is_selected : Context → Query → List Conflict → SyncEvent → Bool
is_selected ctx q conflicts e = is_visible ctx q conflicts e && is_after q.since_version e

-- the events that the query finds
unfoldable pub page_of : Context → Query → List Conflict → List SyncEvent → List SyncEvent
unfolding is_visible
page_of ctx q conflicts events =
    take q.limit (by_version_asc (filter (is_selected ctx q conflicts) events))

-- `latestVersion`: that of the last event, or the one asked for
unfoldable pub latest_version : ℕ → List SyncEvent → ℕ
latest_version since events = elim (get_last? events) [
  | none ↦ since
  | some e ↦ get_or e.server_version since
]

-- What `pull` answers; the projections of the events are left out.
pub record Page : Type 0 where
  pub since_version : ℕ
  pub current_server_version : ℕ
  pub next_since_version : ℕ
  pub has_more : Bool
  pub changes : List SyncEvent

-- the counters and flags of `getStatus`
pub record Status : Type 0 where
  pub current_server_version : ℕ
  pub open_conflicts_count : ℕ
  pub pending_count : ℕ
  pub accepted_count : ℕ
  pub duplicate_count : ℕ
  pub conflict_count : ℕ
  pub rejected_count : ℕ
  pub failed_count : ℕ
  pub error_count : ℕ
  pub requires_review : Bool
  pub has_error : Bool
  pub checkpoints : List Checkpoint

module _ {D : Type 0} where
  -- `pull`
  unfoldable pub pull : Context → Query → Exec (Store D) Page
  unfolding page_of latest_version record_pull get_current_version
  pull ctx q = do
    events ← gets (λ s. page_of ctx q s.conflicts s.events)
    record_pull ctx (latest_version q.since_version events)
        (if is_empty_list q.features then map (λ e. e.feature) events else q.features)
    current ← get_current_version ctx.company_id
    pure (record {
      since_version = q.since_version;
      current_server_version = current;
      next_since_version = latest_version q.since_version events;
      has_more = nat_eq (length events) q.limit;
      changes = events;
    })

  count_by_status : Context → EventStatus → Store D → ℕ
  count_by_status ctx status s =
      length (filter (λ e. e.company_id == ctx.company_id && is_status e.status status) s.events)

  -- `countOpen`
  unfoldable pub count_open : Context → Store D → ℕ
  count_open ctx s =
      length (filter (λ c. c.company_id == ctx.company_id && not (is_settled c.status)) s.conflicts)

  status_of : Context → SyncState → Store D → Status
  status_of ctx state s =
      let rejected = count_by_status ctx EventStatus.rejected s in
      let failed = count_by_status ctx EventStatus.failed s in
      let open_conflicts = count_open ctx s in
      record {
        current_server_version = state.current_version;
        open_conflicts_count = open_conflicts;
        pending_count = count_by_status ctx EventStatus.pending s;
        accepted_count = count_by_status ctx EventStatus.accepted s;
        duplicate_count = count_by_status ctx EventStatus.duplicate s;
        conflict_count = count_by_status ctx EventStatus.conflict s;
        rejected_count = rejected;
        failed_count = failed;
        error_count = rejected + failed;
        requires_review = ltb 0 open_conflicts;
        has_error = ltb 0 failed;
        checkpoints =
            filter (λ c. c.company_id == ctx.company_id && c.device_id == ctx.device_id)
              s.checkpoints;
      }

  -- `getStatus`: the row of the versions is created if it is not there
  unfoldable pub get_status : Context → Exec (Store D) Status
  unfolding get_or_create_state status_of count_by_status count_open
  get_status ctx = do state ← get_or_create_state ctx.company_id; gets (status_of ctx state)
