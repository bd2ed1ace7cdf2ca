-- ===== src/Sync/Push/Guarantees.antt =====
-- What a push guarantees, whatever the body, the materializers and the clock are, and whether it
-- answers or throws.
use tatuzin.Prelude.{◌≤◌, String, ◌≡◌, ◌≢◌, refl, Bool, true, List, arith, any}
use tatuzin.Payload.Json.{Json, Runtime}
use tatuzin.Sync.Types.{Context, SyncEvent, SyncState, Store, Materializer, has_key}
use tatuzin.Sync.Tables.{version_of}
use tatuzin.Sync.Numbering.{IsNumbered, IsStable, Holds}
use tatuzin.Sync.Numbering.Facts.{
  events_of, IsUntouched, IsRemembered, always-IsStable, IsUntouched-IsStable,
  IsRemembered-IsStable, reached-IsStable,
}
use tatuzin.Sync.Push.{push}
use tatuzin.Sync.Push.Keeps.{push-Keeps}

module _ (js : Runtime) (is_datetime : String → Bool) {D : Type 0} (m : Materializer D)
    (ctx : Context) (body : Json) (s : Store D) (numbered : IsNumbered ctx.company_id s) where
  abbrev pub after : Store D
  after = (push js is_datetime m ctx body s).1

  Holds-after :
      (Q : List SyncState → List SyncEvent → Type 0)
      → IsStable ctx.company_id Q
      → Q s.states s.events
      → Holds ctx.company_id Q after
  Holds-after Q stable fact =
      (push-Keeps js is_datetime m ctx Q stable body).at s
        (record { numbered = numbered; fact = fact })

  -- From a store in which the tenant's published events have distinct versions up to its current
  -- version, and all events distinct ids below the next one, a push leads to such a store,
  -- whether it answers or throws.
  pub push-IsNumbered : IsNumbered ctx.company_id after
  push-IsNumbered = (Holds-after (λ ss es. Unit) (always-IsStable ctx.company_id) tt).numbered

  -- From a numbered store, a push of one tenant leaves the event rows and the version of every
  -- other tenant exactly as they were.
  pub push_isolates :
      (other : String)
      → ctx.company_id ≢ other
      → (events_of other after.events ≡ events_of other s.events)
        × (version_of other after.states ≡ version_of other s.states)
  push_isolates other ne =
      (Holds-after (IsUntouched other (events_of other s.events) (version_of other s.states))
        (IsUntouched-IsStable ctx.company_id other _ _ ne) (refl, refl)).fact

  -- From a numbered store, a push forgets no stored event and takes no tenant's version back.
  pub push_remembers :
      (company device id : String)
      → (any (has_key company device id) s.events ≡ true
          → any (has_key company device id) after.events ≡ true)
        × (version_of company s.states ≤ version_of company after.states)
  push_remembers company device id = (
    λ h.
        (Holds-after (IsRemembered company device id)
          (IsRemembered-IsStable ctx.company_id company device id) h).fact,
    (Holds-after (λ ss es. version_of company s.states ≤ version_of company ss)
        (reached-IsStable ctx.company_id company (version_of company s.states)) (omega arith)).fact,
  )
