-- ===== src/Sync/Process/Domain.antt =====
-- Processing an event keeps what each call of a materializer keeps of its tables.
use tatuzin.Prelude.{String, Bool, true, false, not, Option, none, some, ◌==◌}
use tatuzin.Payload.Json.{Runtime}
use tatuzin.Payload.Identity.{PushEvent}
use tatuzin.Exec.{Error}
use tatuzin.Exec.Keeps.{
  Keeps, Keeps-bind, Keeps-if, Keeps-pure, Keeps-gets, Keeps-catch, Keeps-transaction,
}
use tatuzin.Sync.Types.{Context, SyncEvent, Materializer, Outcome, warn, error}
use tatuzin.Sync.Event.{is_allowed_operation, is_local_first_entity, outcome_of}
use tatuzin.Sync.Stored.Domain.{
  KeepsDomain, In, create_event-In, create_conflict-In, create_incident-In, record_push-In,
  next_company_version-In, materialize-In, reprocess_pending_dependents-In,
}
use tatuzin.Sync.Process.{
  reject_event, fail_event, settle, materialize_event, process_new, process_found, process_event,
  rejected_as,
}

module _ (js : Runtime) {D : Type 0} (m : Materializer D) (ctx : Context) (Q : D → Type 0)
    (keeps : KeepsDomain m Q) (event : PushEvent) where
  reject_event-In :
      (code : String) (incident : Bool) → Keeps (In Q) (reject_event js m ctx event code incident)
  unfolding reject_event
  reject_event-In code incident = Keeps-bind _ _ (create_event-In Q _) λ row.
      Keeps-bind _ _
        (Keeps-if incident _ _ (create_incident-In Q ctx (some row.id) code warn) (Keeps-pure tt))
        (λ u. Keeps-pure _)

  fail_event-In : (e : Error) → Keeps (In Q) (fail_event js m ctx event e)
  unfolding fail_event
  fail_event-In e =
      Keeps-bind _ _ (create_event-In Q _)
        λ row. Keeps-bind _ _ (create_incident-In Q ctx (some row.id) _ error) (λ u. Keeps-pure _)

  settle-In : (outcome : Outcome) → Keeps (In Q) (settle js m ctx event outcome)
  unfolding settle
  settle-In (Outcome.duplicate server_id version) =
      Keeps-bind _ _ (create_event-In Q _) (λ row. Keeps-pure _)
  settle-In (Outcome.rejected code) = Keeps-bind _ _ (create_event-In Q _) (λ row. Keeps-pure _)
  settle-In (Outcome.deferred code) = Keeps-bind _ _ (create_event-In Q _) (λ row. Keeps-pure _)
  settle-In (Outcome.conflict code) = Keeps-bind _ _ (next_company_version-In Q _) λ v.
      Keeps-bind _ _ (create_event-In Q _) λ row. Keeps-bind _ _ (create_conflict-In Q _) λ a.
        Keeps-bind _ _ (record_push-In Q ctx ctx.device_id event.feature v)
          λ b. Keeps-bind _ _ (create_incident-In Q ctx (some row.id) code warn) (λ d. Keeps-pure _)
  settle-In (Outcome.accepted server_id at) = Keeps-bind _ _ (next_company_version-In Q _) λ v.
      Keeps-bind _ _ (create_event-In Q _) λ row.
        Keeps-bind _ _ (record_push-In Q ctx ctx.device_id event.feature v) λ a.
          Keeps-bind _ _
            (Keeps-if (event.entity == "operationalOrder") _ _
              (reprocess_pending_dependents-In js m ctx Q keeps) (Keeps-pure tt))
            (λ b. Keeps-pure _)

  outcome_of-In : Keeps (In Q) (outcome_of js m ctx event)
  unfolding outcome_of
  outcome_of-In =
      Keeps-bind _ _ (Keeps-gets _)
        (λ stale. Keeps-if stale _ _ (Keeps-pure _) (materialize-In js m ctx Q keeps none event))

  materialize_event-In : Keeps (In Q) (materialize_event js m ctx event)
  unfolding materialize_event
  materialize_event-In = Keeps-bind _ _ outcome_of-In settle-In

  process_new-In : Keeps (In Q) (process_new js m ctx event)
  unfolding process_new
  process_new-In =
      Keeps-if (not (is_local_first_entity event.entity)) _ _
        (Keeps-bind _ _ (reject_event-In "ENTITY_NOT_LOCAL_FIRST" true)
          (λ item. Keeps-pure (rejected_as js m item)))
        (Keeps-if (not (is_allowed_operation event.operation)) _ _
          (Keeps-bind _ _ (reject_event-In "INVALID_OPERATION" false)
            (λ item. Keeps-pure (rejected_as js m item)))
          (Keeps-catch _ _ (Keeps-transaction _ materialize_event-In) fail_event-In))

  process_found-In : (found : Option SyncEvent) → Keeps (In Q) (process_found js m ctx event found)
  unfolding process_found
  process_found-In none = process_new-In
  process_found-In (some row) = Keeps-pure _

  pub process_event-In : Keeps (In Q) (process_event js m ctx event)
  unfolding process_event
  process_event-In = Keeps-bind _ _ (Keeps-gets _) process_found-In
