-- ===== src/Sync/Stored/Domain.antt =====
-- A fact about the tables of the materializers that each call of a materializer keeps, and the
-- writes and the stored events of the sync.
use tatuzin.Prelude.{
  ℕ, String, Bool, true, Option, List, [], ◌∷◌, any, find?, Bool-cases, Option-cases, inl, inr,
  nat_eq,
}
use tatuzin.Payload.Json.{Fields, Runtime}
use tatuzin.Payload.Identity.{PushEvent}
use tatuzin.Exec.Keeps.{Keeps, Keeps-bind, Keeps-if, Keeps-pure, Keeps-gets}
use tatuzin.Sync.Types.{
  Context, SyncEvent, Store, Outcome, Materializer, Conflict, Severity, has_key,
}
use tatuzin.Sync.Tables.{
  next_company_version, record_push, create_event, update_event, create_conflict, create_incident,
}
use tatuzin.Sync.Event.{materialize}
use tatuzin.Sync.Stored.{
  stored_outcome, materialize_stored_event, materialize_all, reprocess_pending_dependents,
}

-- Each call of the materializer keeps `Q`, whether it answers or throws.
pub record KeepsDomain {D : Type 0} (m : Materializer D) (Q : D → Type 0) : Type 0 where
  pub materialized :
      (ctx : Context) (source : Option String) (event : PushEvent) (payload : Fields)
      (events : List SyncEvent) (d : D)
      → Q d
      → Q (m.materialize ctx source event payload events d).1

module _ {D : Type 0} (Q : D → Type 0) where
  abbrev pub In : Store D → Type 0
  In s = Q s.domain

  pub create_event-In : (row : SyncEvent) → Keeps In (create_event row)
  unfolding create_event
  create_event-In row = record {
    at = λ s h.
        elim (Bool-cases (any (has_key row.company_id row.device_id row.event_id) s.events)) [
          | inl p ↦ rw p h
          | inr p ↦ rw p h
        ];
  }

  update_event-In : (id : ℕ) (f : SyncEvent → SyncEvent) → Keeps In (update_event id f)
  unfolding update_event
  update_event-In id f = record {
    at = λ s h. elim (Option-cases (find? (λ e. nat_eq e.id id) s.events)) [
      | inl p ↦ rw (p, update_event) h
      | inr p ↦ rw (p.1, update_event) h
    ];
  }

  pub create_conflict-In : (row : Conflict) → Keeps In (create_conflict row)
  unfolding create_conflict
  create_conflict-In row = record {
    at = λ s h.
        elim (Bool-cases (any (λ c. nat_eq c.sync_event_id row.sync_event_id) s.conflicts)) [
          | inl p ↦ rw p h
          | inr p ↦ rw p h
        ];
  }

  pub next_company_version-In : (company : String) → Keeps In (next_company_version company)
  unfolding next_company_version
  next_company_version-In company = record { at = λ s h. h }

  pub record_push-In :
      (ctx : Context) (device feature : String) (v : ℕ)
      → Keeps In (record_push ctx device feature v)
  unfolding record_push
  record_push-In ctx device feature v = record { at = λ s h. h }

  pub create_incident-In :
      (ctx : Context) (event : Option ℕ) (code : String) (severity : Severity)
      → Keeps In (create_incident ctx event code severity)
  unfolding create_incident
  create_incident-In ctx event code severity = record { at = λ s h. h }

module _ (js : Runtime) {D : Type 0} (m : Materializer D) (ctx : Context) (Q : D → Type 0)
    (keeps : KeepsDomain m Q) where
  pub materialize-In :
      (source : Option String) (event : PushEvent)
      → Keeps (In Q) (materialize js m ctx source event)
  unfolding materialize
  materialize-In source event = record {
    at = λ s h. keeps.materialized ctx source event event.payload s.events s.domain h;
  }

  stored_outcome-In :
      (create_conflicts : Bool) (stored : SyncEvent) (o : Outcome)
      → Keeps (In Q) (stored_outcome js m ctx create_conflicts stored o)
  unfolding stored_outcome
  stored_outcome-In create_conflicts stored (Outcome.deferred code) =
      Keeps-bind _ _ (update_event-In Q _ _) (λ r. Keeps-pure _)
  stored_outcome-In create_conflicts stored (Outcome.duplicate server_id version) =
      Keeps-bind _ _ (update_event-In Q _ _) (λ r. Keeps-pure _)
  stored_outcome-In create_conflicts stored (Outcome.rejected code) =
      Keeps-bind _ _ (update_event-In Q _ _) (λ r. Keeps-pure _)
  stored_outcome-In create_conflicts stored (Outcome.conflict code) =
      Keeps-bind _ _ (next_company_version-In Q _) λ v.
        Keeps-bind _ _ (update_event-In Q _ _) λ row.
          Keeps-bind _ _ (Keeps-if create_conflicts _ _ (create_conflict-In Q _) (Keeps-pure tt))
            λ a.
              Keeps-bind _ _ (record_push-In Q ctx row.device_id row.feature v) (λ b. Keeps-pure _)
  stored_outcome-In create_conflicts stored (Outcome.accepted server_id at) =
      Keeps-bind _ _ (next_company_version-In Q _) λ v.
        Keeps-bind _ _ (update_event-In Q _ _) λ row.
          Keeps-bind _ _ (record_push-In Q ctx row.device_id row.feature v) (λ b. Keeps-pure _)

  pub materialize_stored_event-In :
      (create_conflicts : Bool) (stored : SyncEvent)
      → Keeps (In Q) (materialize_stored_event js m ctx create_conflicts stored)
  unfolding materialize_stored_event
  materialize_stored_event-In create_conflicts stored =
      Keeps-bind _ _ (materialize-In _ _) (stored_outcome-In create_conflicts stored)

  materialize_all-In : (rows : List SyncEvent) → Keeps (In Q) (materialize_all js m ctx rows)
  unfolding materialize_all
  materialize_all-In [] = Keeps-pure tt
  materialize_all-In (stored ∷ rest) =
      Keeps-bind _ _ (materialize_stored_event-In true stored) (λ o. materialize_all-In rest)

  pub reprocess_pending_dependents-In : Keeps (In Q) (reprocess_pending_dependents js m ctx)
  unfolding reprocess_pending_dependents
  reprocess_pending_dependents-In = Keeps-bind _ _ (Keeps-gets _) materialize_all-In
