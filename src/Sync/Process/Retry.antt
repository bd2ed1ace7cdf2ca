-- ===== src/Sync/Process/Retry.antt =====
-- A retried event: what a device sends again is answered from what is stored.
use mathlib.Core.Path.{subst}
use tatuzin.Prelude.{
  ap, String, ◌≡◌, refl, Bool, true, false, not, Option, none, some, List, [], ◌∷◌, ◌++◌, arith,
  inl, inr, any, find?, Bool-cases, eq_refl,
}
use tatuzin.Payload.Json.{Runtime}
use tatuzin.Payload.Identity.{PushEvent}
use tatuzin.Exec.{ok, Error, ◌>>=◌}
use tatuzin.Exec.Keeps.{Keeps-bind, Keeps-if, Keeps-pure}
use tatuzin.Exec.Ensures.{
  Ensures, Returns, Ensures_of_keeps, Ensures-bind, Ensures-pure, Ensures-if, Ensures-catch,
}
use tatuzin.Sync.Types.{Context, SyncEvent, SyncState, Store, Materializer, has_key, warn, error}
use tatuzin.Sync.Tables.{create_event}
use tatuzin.Sync.Numbering.{IsNumbered, IsStable, Holds, Creates}
use tatuzin.Sync.Numbering.Actions.{create_incident-Keeps}
use tatuzin.Sync.Numbering.Facts.{IsRemembered, IsRemembered-IsStable, always-IsStable}
use tatuzin.Sync.Process.Commit.{hidden, settle-Ensures}
use tatuzin.Sync.Event.{Bucket, is_local_first_entity, is_allowed_operation, item_of_row}
use tatuzin.Sync.Process.{
  Answer, reject_event, fail_event, materialize_event, process_new, process_found, process_event,
  find_event,
}
use tatuzin.Sync.Process.Keeps.{outcome_of-Keeps}

remembered-snoc :
    (c d i : String) (es : List SyncEvent) (row : SyncEvent)
    → has_key c d i row ≡ true
    → any (has_key c d i) (es ++ row ∷ []) ≡ true
remembered-snoc c d i [] row h = rw h
remembered-snoc c d i (e ∷ es) row h = ground (arith, remembered-snoc c d i es row h)

found_of_any :
    (p : SyncEvent → Bool) (es : List SyncEvent)
    → any p es ≡ true
    → (row : SyncEvent) × (find? p es ≡ some row) × (p row ≡ true)
found_of_any p [] h = cc
found_of_any p (e ∷ es) h = elim (Bool-cases (p e)) [
  | inl t ↦ (e, rw t, t)
  | inr t ↦ let (row, found, passes) = found_of_any p es (rw t at h) in (row, rw t found, passes)
]

any_of_found :
    (p : SyncEvent → Bool) (es : List SyncEvent) (row : SyncEvent)
    → find? p es ≡ some row
    → any p es ≡ true
any_of_found p [] row h = cc
any_of_found p (e ∷ es) row h = elim (Bool-cases (p e)) [
  | inl t ↦ rw t refl
  | inr t ↦ rw t (any_of_found p es row (rw t at h))
]

module _ (js : Runtime) {D : Type 0} (m : Materializer D) (ctx : Context) (event : PushEvent) where
  abbrev Any : List SyncState → List SyncEvent → Type 0
  Any ss es = Unit

  abbrev Known : List SyncState → List SyncEvent → Type 0
  Known = IsRemembered ctx.company_id ctx.device_id event.event_id

  -- Creating the event's row makes the event known.
  known-Creates : Creates D ctx.company_id ctx.device_id event.event_id Any Known
  unfolding create_event
  known-Creates = record {
    created = λ row c d i. record {
      at = λ s h.
          elim (Bool-cases (any (has_key row.company_id row.device_id row.event_id) s.events)) [
            | inl e ↦ rw e tt
            | inr e ↦ rw e (
                remembered-snoc _ _ _ s.events _
                  (rw (c, d, i) (rw (eq_refl ctx.company_id, eq_refl ctx.device_id) (eq_refl _))))
          ];
    };
  }

  abbrev Start : Store D → Type 0
  Start = Holds ctx.company_id Any

  abbrev Done : Store D → Type 0
  Done = Holds ctx.company_id Known

  abbrev any_stable : IsStable ctx.company_id Any
  any_stable = always-IsStable ctx.company_id

  abbrev known_stable : IsStable ctx.company_id Known
  known_stable = IsRemembered-IsStable ctx.company_id ctx.company_id ctx.device_id event.event_id

  reject_event-Ensures :
      (code : String) (incident : Bool)
      → Ensures Start (reject_event js m ctx event code incident) (λ a. Done)
  unfolding reject_event
  reject_event-Ensures code incident =
      Ensures-bind _ (λ r. Done) _ _ _
        (hidden js m ctx Any Known any_stable known_stable event known-Creates _ refl refl refl
          refl)
        λ row. Ensures_of_keeps Done _ (
          Keeps-bind _ _
            (Keeps-if incident _ _
              (create_incident-Keeps ctx.company_id Known ctx (some row.id) code warn)
              (Keeps-pure tt))
            (λ u. Keeps-pure _))

  fail_event-Ensures : (e : Error) → Ensures Start (fail_event js m ctx event e) (λ a. Done)
  unfolding fail_event
  fail_event-Ensures e =
      Ensures-bind _ (λ r. Done) _ _ _
        (hidden js m ctx Any Known any_stable known_stable event known-Creates _ refl refl refl
          refl)
        λ row. Ensures_of_keeps Done _ (
          Keeps-bind _ _ (create_incident-Keeps ctx.company_id Known ctx (some row.id) _ error)
            (λ u. Keeps-pure _))

  materialize_event-Done : Ensures Start (materialize_event js m ctx event) (λ a. Done)
  unfolding materialize_event
  materialize_event-Done =
      Ensures-bind _ (λ o. Start) _ _ _
        (Ensures_of_keeps Start _ (outcome_of-Keeps js m ctx Any any_stable event))
        (settle-Ensures js m ctx Any Known any_stable known_stable event known-Creates)

  pub process_new-Ensures : Ensures Start (process_new js m ctx event) (λ a. Done)
  unfolding process_new
  process_new-Ensures =
      Ensures-if Start (λ a. Done) (not (is_local_first_entity event.entity)) _ _
        (Ensures-bind _ (λ r. Done) _ _ _ (reject_event-Ensures "ENTITY_NOT_LOCAL_FIRST" true)
          (λ item. Ensures-pure _ _ _ (λ s h. h)))
        (Ensures-if Start (λ a. Done) (not (is_allowed_operation event.operation)) _ _
          (Ensures-bind _ (λ r. Done) _ _ _ (reject_event-Ensures "INVALID_OPERATION" false)
            (λ item. Ensures-pure _ _ _ (λ s h. h)))
          (Ensures-catch Start (λ a. Done) _ _ materialize_event-Done fail_event-Ensures))

  -- A stored event is answered from its row, and nothing is written.
  pub process_known :
      (s : Store D)
      → any (has_key ctx.company_id ctx.device_id event.event_id) s.events ≡ true
      → (row : SyncEvent) × (process_event js m ctx event s
          ≡ (ok (Bucket.duplicates, item_of_row row), s))
        × (find_event js m ctx event.event_id s ≡ some row)
  unfolding process_event ◌>>=◌ found_of_any
  process_known s h =
      let (row, found, _) = found_of_any _ s.events h in (row, rw (found, ◌>>=◌), found)

module _ (js : Runtime) {D : Type 0} (m : Materializer D) (ctx : Context) (event : PushEvent) where
  known_of_found :
      (s : Store D) (found : Option SyncEvent) (a : Answer) (t : Store D)
      → IsNumbered ctx.company_id s
      → find_event js m ctx event.event_id s ≡ found
      → process_found js m ctx event found s ≡ (ok a, t)
      → any (has_key ctx.company_id ctx.device_id event.event_id) t.events ≡ true
  unfolding process_found
  known_of_found s none a t numbered f h =
      let done : Returns (λ a. Done js m ctx event) (ok a, t) =
        subst (Returns (λ a. Done js m ctx event)) h
          ((process_new-Ensures js m ctx event).at s (record { numbered = numbered; fact = tt })) in
      done.fact
  known_of_found s (some row) a t numbered f h =
      let same : s ≡ t = ap (λ r. r.1) h in
      subst (λ u. any (has_key ctx.company_id ctx.device_id event.event_id) u.events ≡ true) same
        (any_of_found _ s.events row f)

  -- An event that was answered is stored.
  pub known_after :
      (s : Store D) (a : Answer) (t : Store D)
      → IsNumbered ctx.company_id s
      → process_event js m ctx event s ≡ (ok a, t)
      → any (has_key ctx.company_id ctx.device_id event.event_id) t.events ≡ true
  unfolding process_event ◌>>=◌
  known_after s a t numbered h =
      known_of_found s (find_event js m ctx event.event_id s) a t numbered refl h
