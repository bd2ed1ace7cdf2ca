-- ===== src/Sync/Process/Keeps.antt =====
-- Processing an event keeps a tenant's events numbered, and every stable fact.
use tatuzin.Sync.Process.Commit.{settle-Ensures}
use tatuzin.Prelude.{List, String, refl, Bool, true, false, not, Option, none, some}
use tatuzin.Payload.Json.{Runtime}
use tatuzin.Payload.Identity.{PushEvent}
use tatuzin.Exec.{Error}
use tatuzin.Exec.Keeps.{Keeps, Keeps-bind, Keeps-if, Keeps-pure, Keeps-gets, Keeps-catch}
use tatuzin.Exec.Ensures.{Ensures, Ensures_of_keeps, Keeps-of_ensures, Ensures-bind}
use tatuzin.Sync.Types.{Context, SyncEvent, SyncState, Store, Materializer, warn, error}
use tatuzin.Sync.Numbering.{IsStable, Holds}
use tatuzin.Sync.Numbering.Actions.{stable-Creates, create_incident-Keeps, create_unpublished-Keeps}
use tatuzin.Sync.Event.{is_allowed_operation, is_local_first_entity, outcome_of}
use tatuzin.Sync.Stored.Keeps.{materialize-Keeps}
use tatuzin.Sync.Process.{
  reject_event, fail_event, materialize_event, process_new, process_found, process_event,
  rejected_as,
}

module _ (js : Runtime) {D : Type 0} (m : Materializer D) (ctx : Context)
    (Q : List SyncState → List SyncEvent → Type 0) (stable : IsStable ctx.company_id Q) where
  abbrev Inv : Store D → Type 0
  Inv = Holds ctx.company_id Q

  reject_event-Keeps :
      (event : PushEvent) (code : String) (incident : Bool)
      → Keeps Inv (reject_event js m ctx event code incident)
  unfolding reject_event
  reject_event-Keeps event code incident =
      Keeps-bind _ _ (create_unpublished-Keeps ctx.company_id Q stable _ refl refl) λ row.
        Keeps-bind _ _
          (Keeps-if incident _ _
            (create_incident-Keeps ctx.company_id Q ctx (some row.id) code warn) (Keeps-pure tt))
          (λ u. Keeps-pure _)

  fail_event-Keeps : (event : PushEvent) (e : Error) → Keeps Inv (fail_event js m ctx event e)
  unfolding fail_event
  fail_event-Keeps event e =
      Keeps-bind _ _ (create_unpublished-Keeps ctx.company_id Q stable _ refl refl) λ row.
        Keeps-bind _ _ (create_incident-Keeps ctx.company_id Q ctx (some row.id) _ error)
          (λ u. Keeps-pure _)

  pub outcome_of-Keeps : (event : PushEvent) → Keeps Inv (outcome_of js m ctx event)
  unfolding outcome_of
  outcome_of-Keeps event =
      Keeps-bind _ _ (Keeps-gets _)
        (λ stale. Keeps-if stale _ _ (Keeps-pure _) (materialize-Keeps js m ctx Q none event))

  pub materialize_event-Ensures :
      (event : PushEvent) → Ensures Inv (materialize_event js m ctx event) (λ a. Inv)
  unfolding materialize_event
  materialize_event-Ensures event =
      Ensures-bind Inv (λ o. Inv) _ _ _ (Ensures_of_keeps Inv _ (outcome_of-Keeps event))
        (settle-Ensures js m ctx Q Q stable stable event
          (stable-Creates ctx.company_id Q stable _ _))

  process_new-Keeps : (event : PushEvent) → Keeps Inv (process_new js m ctx event)
  unfolding process_new
  process_new-Keeps event =
      Keeps-if (not (is_local_first_entity event.entity)) _ _
        (Keeps-bind _ _ (reject_event-Keeps event "ENTITY_NOT_LOCAL_FIRST" true)
          (λ item. Keeps-pure (rejected_as js m item)))
        (Keeps-if (not (is_allowed_operation event.operation)) _ _
          (Keeps-bind _ _ (reject_event-Keeps event "INVALID_OPERATION" false)
            (λ item. Keeps-pure (rejected_as js m item)))
          (Keeps-catch _ _ (Keeps-of_ensures Inv _ (materialize_event-Ensures event))
            (fail_event-Keeps event)))

  process_found-Keeps :
      (event : PushEvent) (found : Option SyncEvent)
      → Keeps Inv (process_found js m ctx event found)
  unfolding process_found
  process_found-Keeps event none = process_new-Keeps event
  process_found-Keeps event (some row) = Keeps-pure _

  pub process_event-Keeps : (event : PushEvent) → Keeps Inv (process_event js m ctx event)
  unfolding process_event
  process_event-Keeps event =
      Keeps-bind _ _ (Keeps-gets _) (λ found. process_found-Keeps event found)
