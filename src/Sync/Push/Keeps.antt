-- ===== src/Sync/Push/Keeps.antt =====
-- A push keeps a tenant's events numbered, and every stable fact.
use tatuzin.Sync.Schema.{parse_batch}
use tatuzin.Prelude.{length, ltb, String, refl, Bool, Option, none, some, List, [], ◌∷◌, ◌==◌}
use tatuzin.Payload.Json.{Json, Runtime}
use tatuzin.Payload.Identity.{PushEvent}
use tatuzin.Exec.Keeps.{Keeps, Keeps-bind, Keeps-if, Keeps-pure, Keeps-throw, Keeps-gets}
use tatuzin.Sync.Types.{Context, SyncEvent, SyncState, Store, Materializer, warn}
use tatuzin.Sync.Tables.{get_current_version}
use tatuzin.Sync.Numbering.{IsStable, Holds}
use tatuzin.Sync.Numbering.Actions.{create_incident-Keeps, create_unpublished-Keeps}
use tatuzin.Sync.Process.Keeps.{process_event-Keeps}
use tatuzin.Sync.Push.{
  max_events_per_push, Buckets, put, store_malformed, reject_malformed_event, push_parsed, push_one,
  push_all, push_batch, push, raw_field,
}

module _ (js : Runtime) (is_datetime : String → Bool) {D : Type 0} (m : Materializer D)
    (ctx : Context) (Q : List SyncState → List SyncEvent → Type 0)
    (stable : IsStable ctx.company_id Q) where
  abbrev Inv : Store D → Type 0
  Inv = Holds ctx.company_id Q

  store_malformed-Keeps : (raw : Json) → Keeps Inv (store_malformed js is_datetime m ctx raw)
  unfolding store_malformed
  store_malformed-Keeps raw =
      Keeps-bind _ _ (create_unpublished-Keeps ctx.company_id Q stable _ refl refl)
        (λ row. Keeps-pure tt)

  reject_malformed_event-Keeps :
      (raw : Json) → Keeps Inv (reject_malformed_event js is_datetime m ctx raw)
  unfolding reject_malformed_event
  reject_malformed_event-Keeps raw =
      Keeps-bind _ _
        (Keeps-if (raw_field raw "eventId" == "unknown") _ _ (Keeps-pure tt)
          (store_malformed-Keeps raw))
        λ a.
          Keeps-bind _ _ (create_incident-Keeps ctx.company_id Q ctx none _ warn)
            (λ b. Keeps-pure _)

  push_parsed-Keeps :
      (raw : Json) (event : Option PushEvent)
      → Keeps Inv (push_parsed js is_datetime m ctx raw event)
  unfolding push_parsed
  push_parsed-Keeps raw none =
      Keeps-bind _ _ (reject_malformed_event-Keeps raw) (λ item. Keeps-pure _)
  push_parsed-Keeps raw (some event) = process_event-Keeps js m ctx Q stable _

  pub push_one-Keeps : (raw : Json) → Keeps Inv (push_one js is_datetime m ctx raw)
  unfolding push_one
  push_one-Keeps raw = push_parsed-Keeps raw _

  push_all-Keeps :
      (events : List Json) (b : Buckets) → Keeps Inv (push_all js is_datetime m ctx events b)
  unfolding push_all
  push_all-Keeps [] b = Keeps-pure b
  push_all-Keeps (raw ∷ rest) b =
      Keeps-bind _ _ (push_one-Keeps raw) (λ answer. push_all-Keeps rest (put answer b))

  push_batch-Keeps :
      (events : Option (List Json)) → Keeps Inv (push_batch js is_datetime m ctx events)
  unfolding push_batch get_current_version
  push_batch-Keeps none =
      Keeps-bind _ _ (create_incident-Keeps ctx.company_id Q ctx none _ warn) (λ a. Keeps-throw _)
  push_batch-Keeps (some events) =
      Keeps-if (ltb max_events_per_push (length events)) _ _
        (Keeps-bind _ _ (create_incident-Keeps ctx.company_id Q ctx none _ warn)
          (λ a. Keeps-throw _))
        (Keeps-bind _ _ (push_all-Keeps events _)
          (λ b. Keeps-bind _ _ (Keeps-gets _) (λ v. Keeps-pure _)))

  -- Whatever the body is and whether the push answers or throws, the invariant is kept.
  pub push-Keeps : (body : Json) → Keeps Inv (push js is_datetime m ctx body)
  unfolding push
  push-Keeps body = push_batch-Keeps (parse_batch body)
