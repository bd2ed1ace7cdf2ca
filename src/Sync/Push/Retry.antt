-- ===== src/Sync/Push/Retry.antt =====
-- A retried event, after other pushes: what a device sends again is answered from what is stored.
use mathlib.Core.Path.{subst}
use tatuzin.Prelude.{some, Bool, String, ◌≡◌, true, List, [], ◌∷◌, any}
use tatuzin.Payload.Json.{Json, Runtime}
use tatuzin.Payload.Identity.{PushEvent}
use tatuzin.Exec.{ok}
use tatuzin.Sync.Types.{Context, SyncEvent, Store, Materializer, has_key}
use tatuzin.Sync.Event.{Bucket, item_of_row}
use tatuzin.Sync.Process.{Answer, process_event, find_event}
use tatuzin.Sync.Process.Retry.{known_after, process_known}
use tatuzin.Sync.Push.{push}
use tatuzin.Sync.Push.Guarantees.{push_remembers}
use tatuzin.Sync.Push.Tenants.{
  IsNumberedForAll, push-IsNumberedForAll, process_event-IsNumberedForAll,
}

module _ (js : Runtime) (is_datetime : String → Bool) {D : Type 0} (m : Materializer D) where
  -- Pushes of several devices, one after the other, each with its own user and clock.
  abbrev pub push_each : List (Context × Json) → Store D → Store D
  push_each [] s = s
  push_each ((ctx, body) ∷ rest) s = push_each rest (push js is_datetime m ctx body s).1

  push_each-remembers :
      (company device id : String) (pushes : List (Context × Json)) (s : Store D)
      → IsNumberedForAll s
      → any (has_key company device id) s.events ≡ true
      → any (has_key company device id) (push_each pushes s).events ≡ true
  push_each-remembers company device id [] s numbered h = h
  push_each-remembers company device id ((ctx, body) ∷ rest) s numbered h =
      push_each-remembers company device id rest (push js is_datetime m ctx body s).1
        (push-IsNumberedForAll js is_datetime m ctx body s numbered)
        ((push_remembers js is_datetime m ctx body s (numbered ctx.company_id) company device id).0
          h)

  -- From a store where the events of every tenant are numbered, once an event was answered and
  -- whatever pushes of whichever tenants come next: an event that is sent under the same tenant,
  -- device and event id, by whichever user, at whatever time and whatever else it says, is answered
  -- in the duplicates, with what the stored row says, and nothing is written.
  pub process_again :
      (ctx later : Context) (event again : PushEvent) (s : Store D) (a : Answer) (t : Store D)
      (between : List (Context × Json))
      → IsNumberedForAll s
      → process_event js m ctx event s ≡ (ok a, t)
      → later.company_id ≡ ctx.company_id
      → later.device_id ≡ ctx.device_id
      → again.event_id ≡ event.event_id
      → (row : SyncEvent) × (process_event js m later again (push_each between t)
          ≡ (ok (Bucket.duplicates, item_of_row row), push_each between t))
        × (find_event js m later again.event_id (push_each between t) ≡ some row)
  process_again ctx later event again s a t between numbered first company device id =
      let kept =
        push_each-remembers ctx.company_id ctx.device_id event.event_id between t
          (subst (λ r. IsNumberedForAll r.1) first
            (process_event-IsNumberedForAll js m ctx event s numbered))
          (known_after js m ctx event s a t (numbered ctx.company_id) first) in
      process_known js m later again (push_each between t) (rw (company, device, id) kept)
