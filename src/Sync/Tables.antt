-- ===== src/Sync/Tables.antt =====
-- The writes to the sync tables: sync-version.service.ts, sync-checkpoint.service.ts, and the rows
-- that the event service and the conflict service create and update.
pub mod Lists
use tatuzin.Prelude.{
  ℕ, suc, ◌+◌, String, Bool, true, false, ◌&&◌, Option, none, some, List, [], ◌∷◌, ◌++◌, ◌==◌,
  nat_eq, any, find?, if◌then◌else◌, get_or,
}
use tatuzin.Prelude.Int.{ℤ}
use tatuzin.Exec.{Exec, Result, ok, err, pure, throw, gets, modify, unique_violation, failure}
use tatuzin.Sync.Types.{
  SyncEvent, Checkpoint, Conflict, Incident, SyncState, Store, Context, Severity, EventStatus,
  has_key,
}

-- Change the first row that passes the test: the row of a unique key.
abbrev pub update_first {ℓ} : {A : Type ℓ} → (A → Bool) → (A → A) → List A → List A
update_first p f [] = []
update_first p f (x ∷ xs) = if p x then f x ∷ xs else x ∷ update_first p f xs

-- `upsert`: update the row of a unique key, or create it
abbrev pub upsert {ℓ} : {A : Type ℓ} → (A → Bool) → (A → A) → A → List A → List A
upsert p f new [] = new ∷ []
upsert p f new (x ∷ xs) = if p x then f x ∷ xs else x ∷ upsert p f new xs

abbrev pub version_of : String → List SyncState → ℕ
version_of company [] = 0
version_of company (s ∷ ss) =
    if s.company_id == company then s.current_version else version_of company ss

-- the `upsert` of `nextCompanyVersion`
abbrev pub bump : String → List SyncState → List SyncState
bump company =
    upsert (λ s. s.company_id == company)
      (λ s. record s { current_version = s.current_version + 1 })
      (record { company_id = company; current_version = 1; server_first_snapshot_version = 0 })

abbrev at_checkpoint : String → String → String → Checkpoint → Bool
at_checkpoint company device feature c =
    c.company_id == company && c.device_id == device && c.feature == feature

module _ {D : Type 0} where
  -- `getCurrentVersion`
  unfoldable pub get_current_version : String → Exec (Store D) ℕ
  get_current_version company = gets (λ s. version_of company s.states)

  -- `nextCompanyVersion`
  unfoldable pub next_company_version : String → Exec (Store D) ℕ
  next_company_version company s =
      let t = record s { states = bump company s.states } in (ok (version_of company t.states), t)

  -- `getOrCreateState`
  unfoldable pub get_or_create_state : String → Exec (Store D) SyncState
  get_or_create_state company s =
      let new : SyncState = record {
        company_id = company;
        current_version = 0;
        server_first_snapshot_version = 0;
      } in
      let states = upsert (λ r. r.company_id == company) (λ r. r) new s.states in
      (ok (get_or (find? (λ r. r.company_id == company) states) new), record s { states = states })

  -- `recordPush`
  unfoldable pub record_push : Context → String → String → ℕ → Exec (Store D) (Unit {0})
  record_push ctx device feature version =
      modify
        (λ s. record s {
          checkpoints =
              upsert (at_checkpoint ctx.company_id device feature)
                (λ c. record c { last_server_version = version; last_pushed_at = some ctx.now })
                (record {
                  company_id = ctx.company_id;
                  device_id = device;
                  feature = feature;
                  last_server_version = version;
                  last_pushed_at = some ctx.now;
                  last_pulled_at = none;
                })
                s.checkpoints;
        })
        tt

  -- `tx.syncEvent.create`, which gives the row its id
  unfoldable pub create_event : SyncEvent → Exec (Store D) SyncEvent
  create_event row s =
      let new = record row { id = s.next_id } in
      if any (has_key row.company_id row.device_id row.event_id) s.events
      then (err unique_violation, s)
      else (ok new, record s { events = s.events ++ new ∷ []; next_id = suc s.next_id })

  -- `tx.syncEvent.update` by id, which returns the new row and throws if there is none
  unfoldable pub update_event : ℕ → (SyncEvent → SyncEvent) → Exec (Store D) SyncEvent
  update_event id f s = elim (find? (λ e. nat_eq e.id id) s.events) [
    | none ↦ (err failure, s)
    | some row ↦ (ok (f row), record s { events = update_first (λ e. nat_eq e.id id) f s.events })
  ]

  -- `createConflict`: at most one conflict for an event
  unfoldable pub create_conflict : Conflict → Exec (Store D) (Unit {0})
  create_conflict row s =
      if any (λ c. nat_eq c.sync_event_id row.sync_event_id) s.conflicts
      then (err unique_violation, s)
      else (
        ok tt,
        record s {
          conflicts = s.conflicts ++ (record row { id = s.next_id }) ∷ [];
          next_id = suc s.next_id;
        },
      )

  -- `createIncident`, `tx.syncIncident.create`
  unfoldable pub create_incident :
      Context → Option ℕ → String → Severity → Exec (Store D) (Unit {0})
  create_incident ctx event code severity =
      modify
        (λ s. record s {
          incidents =
              s.incidents
              ++ (record {
                company_id = ctx.company_id;
                device_id = ctx.device_id;
                user_id = ctx.user_id;
                sync_event_id = event;
                code = code;
                severity = severity;
              })
                ∷ [];
        })
        tt

-- one round of the loop of `recordPull`
pull_checkpoint : Context → ℕ → String → List Checkpoint → List Checkpoint
pull_checkpoint ctx version feature =
    upsert (at_checkpoint ctx.company_id ctx.device_id feature)
      (λ c. record c { last_server_version = version; last_pulled_at = some ctx.now })
      (record {
        company_id = ctx.company_id;
        device_id = ctx.device_id;
        feature = feature;
        last_server_version = version;
        last_pushed_at = none;
        last_pulled_at = some ctx.now;
      })

-- `recordPull`. The `Set` only drops repeated features, which change nothing a second time.
unfoldable pub pull_checkpoints : Context → ℕ → List String → List Checkpoint → List Checkpoint
unfolding pull_checkpoint
pull_checkpoints ctx version [] cs = cs
pull_checkpoints ctx version (f ∷ fs) cs =
    pull_checkpoints ctx version fs (pull_checkpoint ctx version f cs)

module _ {D : Type 0} where
  unfoldable pub record_pull : Context → ℕ → List String → Exec (Store D) (Unit {0})
  unfolding pull_checkpoints
  record_pull ctx version features =
      modify (λ s. record s { checkpoints = pull_checkpoints ctx version features s.checkpoints })
        tt
