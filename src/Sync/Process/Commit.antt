-- ===== src/Sync/Process/Commit.antt =====
-- What the transaction of `processEvent` ensures where it commits.
use tatuzin.Prelude.{List, ℕ, ◌≡◌, refl, false, some, ◌==◌}
use tatuzin.Payload.Json.{Runtime}
use tatuzin.Payload.Identity.{PushEvent}
use tatuzin.Exec.Keeps.{Keeps-bind, Keeps-pure}
use tatuzin.Exec.Ensures.{
  Ensures-both, Ensures, Ensures_of_keeps, Ensures-bind, Ensures-pure, Ensures-if,
}
use tatuzin.Sync.Types.{Context, SyncEvent, SyncState, Store, Outcome, Materializer, warn}
use tatuzin.Sync.Numbering.{is_published, Creates, IsStable, Holds, HoldsFresh}
use tatuzin.Sync.Numbering.Steps.{next_company_version-Ensures}
use tatuzin.Sync.Numbering.Actions.{
  record_push-Keeps, create_conflict-Keeps, create_incident-Keeps, create_unpublished-Keeps,
  create_fresh-Ensures,
}
use tatuzin.Sync.Event.{conflict_of}
use tatuzin.Sync.Stored.Keeps.{reprocess_pending_dependents-Ensures}
use tatuzin.Sync.Process.{create_event, settle}

module _ (js : Runtime) {D : Type 0} (m : Materializer D) (ctx : Context)
    (Q R : List SyncState → List SyncEvent → Type 0) (stable : IsStable ctx.company_id Q)
    (stable' : IsStable ctx.company_id R) (event : PushEvent)
    (creates : Creates D ctx.company_id ctx.device_id event.event_id Q R) where
  abbrev Inv : Store D → Type 0
  Inv = Holds ctx.company_id R

  -- the row is created hidden
  pub hidden :
      (row : SyncEvent)
      → row.company_id ≡ ctx.company_id
      → row.device_id ≡ ctx.device_id
      → row.event_id ≡ event.event_id
      → is_published row ≡ false
      → Ensures (Holds ctx.company_id Q) (create_event row) (λ r. Inv)
  hidden row company device id unpublished =
      Ensures-both (Holds ctx.company_id Q) (λ s. Q s.states s.events) (λ r. Holds ctx.company_id Q)
        (λ r s. R s.states s.events) (λ r. Inv) (create_event row) (λ s h. h.fact)
        (λ a s h k. record { numbered = h.numbered; fact = k })
        (Ensures_of_keeps _ _
          (create_unpublished-Keeps ctx.company_id Q stable row company unpublished))
        (creates.created row company device id)

  -- the row is created with a fresh version
  versioned :
      (row : SyncEvent) (v : ℕ)
      → row.company_id ≡ ctx.company_id
      → row.device_id ≡ ctx.device_id
      → row.event_id ≡ event.event_id
      → row.server_version ≡ some v
      → Ensures (HoldsFresh ctx.company_id Q v) (create_event row) (λ r. Inv)
  versioned row v company device id version =
      Ensures-both (HoldsFresh ctx.company_id Q v) (λ s. Q s.states s.events)
        (λ r. Holds ctx.company_id Q) (λ r s. R s.states s.events) (λ r. Inv) (create_event row)
        (λ s h. h.holds.fact) (λ a s h k. record { numbered = h.numbered; fact = k })
        (create_fresh-Ensures ctx.company_id Q stable row v company version)
        (creates.created row company device id)

  pub settle-Ensures :
      (outcome : Outcome)
      → Ensures (Holds ctx.company_id Q) (settle js m ctx event outcome) (λ a. Inv)
  unfolding settle
  settle-Ensures (Outcome.duplicate server_id version) =
      Ensures-bind _ (λ r. Inv) _ _ _ (hidden _ refl refl refl refl)
        (λ row. Ensures-pure _ _ _ (λ s h. h))
  settle-Ensures (Outcome.rejected code) =
      Ensures-bind _ (λ r. Inv) _ _ _ (hidden _ refl refl refl refl)
        (λ row. Ensures-pure _ _ _ (λ s h. h))
  settle-Ensures (Outcome.deferred code) =
      Ensures-bind _ (λ r. Inv) _ _ _ (hidden _ refl refl refl refl)
        (λ row. Ensures-pure _ _ _ (λ s h. h))
  settle-Ensures (Outcome.conflict code) =
      Ensures-bind _ (HoldsFresh ctx.company_id Q) _ _ _
        (next_company_version-Ensures ctx.company_id Q stable)
        λ v.
          Ensures-bind _ (λ r. Inv) _ _ _ (versioned _ v refl refl refl refl)
            λ row. Ensures_of_keeps Inv _ (
              Keeps-bind _ _ (create_conflict-Keeps ctx.company_id R (conflict_of ctx row code))
                λ a.
                  Keeps-bind _ _
                    (record_push-Keeps ctx.company_id R ctx ctx.device_id event.feature v)
                    λ b.
                      Keeps-bind _ _
                        (create_incident-Keeps ctx.company_id R ctx (some row.id) code warn)
                        (λ d. Keeps-pure _))
  settle-Ensures (Outcome.accepted server_id materialized_at) =
      Ensures-bind _ (HoldsFresh ctx.company_id Q) _ _ _
        (next_company_version-Ensures ctx.company_id Q stable)
        λ v.
          Ensures-bind _ (λ r. Inv) _ _ _ (versioned _ v refl refl refl refl)
            λ row.
              Ensures-bind Inv (λ a. Inv) _ _ _
                (Ensures_of_keeps Inv _
                  (record_push-Keeps ctx.company_id R ctx ctx.device_id event.feature v))
                λ a.
                  Ensures-bind Inv (λ b. Inv) _ _ _
                    (Ensures-if Inv (λ b. Inv) (event.entity == "operationalOrder") _ _
                      (reprocess_pending_dependents-Ensures js m ctx R stable')
                      (Ensures-pure _ _ _ (λ s h. h)))
                    (λ b. Ensures-pure _ _ _ (λ s h. h))
