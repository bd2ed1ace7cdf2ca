-- ===== src/Sync/Push/Domain.antt =====
-- A push keeps what each call of a materializer keeps of its tables.
use tatuzin.Sync.Schema.{parse_batch}
use tatuzin.Prelude.{length, ltb, String, Bool, Option, none, some, List, [], ◌∷◌, ◌==◌}
use tatuzin.Payload.Json.{Json, Runtime}
use tatuzin.Payload.Identity.{PushEvent}
use tatuzin.Exec.Keeps.{Keeps, Keeps-bind, Keeps-if, Keeps-pure, Keeps-throw, Keeps-gets}
use tatuzin.Sync.Types.{Context, Store, Materializer, warn}
use tatuzin.Sync.Tables.{get_current_version}
use tatuzin.Sync.Stored.Domain.{KeepsDomain, In, create_event-In, create_incident-In}
use tatuzin.Sync.Process.Domain.{process_event-In}
use tatuzin.Sync.Push.{
  max_events_per_push, Buckets, put, store_malformed, reject_malformed_event, push_parsed, push_one,
  push_all, push_batch, push, raw_field,
}

module _ (js : Runtime) (is_datetime : String → Bool) {D : Type 0} (m : Materializer D)
    (ctx : Context) (Q : D → Type 0) (keeps : KeepsDomain m Q) where
  store_malformed-In : (raw : Json) → Keeps (In Q) (store_malformed js is_datetime m ctx raw)
  unfolding store_malformed
  store_malformed-In raw = Keeps-bind _ _ (create_event-In Q _) (λ row. Keeps-pure tt)

  reject_malformed_event-In :
      (raw : Json) → Keeps (In Q) (reject_malformed_event js is_datetime m ctx raw)
  unfolding reject_malformed_event
  reject_malformed_event-In raw =
      Keeps-bind _ _
        (Keeps-if (raw_field raw "eventId" == "unknown") _ _ (Keeps-pure tt)
          (store_malformed-In raw))
        λ a. Keeps-bind _ _ (create_incident-In Q ctx none _ warn) (λ b. Keeps-pure _)

  push_parsed-In :
      (raw : Json) (event : Option PushEvent)
      → Keeps (In Q) (push_parsed js is_datetime m ctx raw event)
  unfolding push_parsed
  push_parsed-In raw none = Keeps-bind _ _ (reject_malformed_event-In raw) (λ item. Keeps-pure _)
  push_parsed-In raw (some event) = process_event-In js m ctx Q keeps _

  push_one-In : (raw : Json) → Keeps (In Q) (push_one js is_datetime m ctx raw)
  unfolding push_one
  push_one-In raw = push_parsed-In raw _

  push_all-In :
      (events : List Json) (b : Buckets) → Keeps (In Q) (push_all js is_datetime m ctx events b)
  unfolding push_all
  push_all-In [] b = Keeps-pure b
  push_all-In (raw ∷ rest) b =
      Keeps-bind _ _ (push_one-In raw) (λ answer. push_all-In rest (put answer b))

  push_batch-In :
      (events : Option (List Json)) → Keeps (In Q) (push_batch js is_datetime m ctx events)
  unfolding push_batch get_current_version
  push_batch-In none = Keeps-bind _ _ (create_incident-In Q ctx none _ warn) (λ a. Keeps-throw _)
  push_batch-In (some events) =
      Keeps-if (ltb max_events_per_push (length events)) _ _
        (Keeps-bind _ _ (create_incident-In Q ctx none _ warn) (λ a. Keeps-throw _))
        (Keeps-bind _ _ (push_all-In events _)
          (λ b. Keeps-bind _ _ (Keeps-gets _) (λ v. Keeps-pure _)))

  push-In : (body : Json) → Keeps (In Q) (push js is_datetime m ctx body)
  unfolding push
  push-In body = push_batch-In (parse_batch body)

  -- Whatever holds of the tables of the materializers and is kept by each call of a materializer,
  -- whether it answers or throws, still holds after a push, whatever its body is and whether it
  -- answers or throws: the push itself writes none of these tables.
  pub push_domain :
      (body : Json) (s : Store D) → Q s.domain → Q (push js is_datetime m ctx body s).1.domain
  push_domain body s h = (push-In body).at s h
