-- ===== src/Sync/Stored/Keeps.antt =====
-- Materializing stored events keeps a tenant's events numbered, and every stable fact.
use tatuzin.Prelude.{
  ℕ, String, ◌≡◌, refl, Bool, true, Option, some, List, [], ◌∷◌, arith, filter, take, ◌==◌, eq_iff,
}
use tatuzin.Payload.Json.{Runtime}
use tatuzin.Exec.{Exec, Result, pure, ◌>>=◌, ◌>>◌}
use tatuzin.Exec.Keeps.{Keeps, Keeps-bind, Keeps-if, Keeps-pure}
use tatuzin.Sync.Order.Laws.{All-of_Elem, Elem-filter, Elem-of_take}
use tatuzin.Exec.Ensures.{
  Returns-weaken, Ensures, Returns, Ensures_of_keeps, Ensures-bind, Ensures-pure,
}
use tatuzin.Sync.Types.{Context, SyncEvent, SyncState, EventStatus, Store, Outcome, Materializer}
use tatuzin.Sync.Tables.{next_company_version, record_push, update_event}
use tatuzin.Sync.Numbering.{counts, IsOwned, KeepsKey, IsStable, Holds, HoldsFresh}
use tatuzin.Sync.Numbering.Steps.{next_company_version-Ensures}
use tatuzin.Sync.Numbering.Actions.{
  record_push-Keeps, create_conflict-Keeps, update_fresh-Ensures, update_same-Ensures, same-Holds,
}
use tatuzin.Sync.Numbering.Owned.{AllOwned, AllOwned-IsStable, Both-IsStable, IsOwned-of_Elem}
use tatuzin.Sync.Event.{materialize, with_domain, conflict_of}
use tatuzin.Sync.Stored.{
  PushEvent, event_of_row, stored_outcome, materialize_stored_event, materialize_all,
  is_pending_item, reprocess_pending_dependents,
}

module _ (js : Runtime) {D : Type 0} (m : Materializer D) (ctx : Context)
    (Q : List SyncState → List SyncEvent → Type 0) where
  abbrev Inv : Store D → Type 0
  Inv = Holds ctx.company_id Q

  written : (s : Store D) → Inv s → (r : Result Outcome × D) → Inv (with_domain js m s r).1
  written s h (r, domain) = same-Holds ctx.company_id Q s _ refl refl (omega arith) h

  -- A materializer writes only its own tables.
  pub materialize-Keeps :
      (source : Option String) (event : PushEvent) → Keeps Inv (materialize js m ctx source event)
  unfolding materialize
  materialize-Keeps source event = record {
    at = λ s h. written s h (m.materialize ctx source event event.payload s.events s.domain);
  }

  module _ (stable : IsStable ctx.company_id Q) where
    -- a fresh version, the row that gets it, and what else is written
    versioned :
        (id : ℕ) (f : ℕ → SyncEvent → SyncEvent) (rest : ℕ → SyncEvent → Exec (Store D) EventStatus)
        → ((v : ℕ) → KeepsKey (f v))
        → ((v : ℕ) (e : SyncEvent) → (f v e).server_version ≡ some v)
        → ((s : Store D) → Inv s → IsOwned ctx.company_id id s.events)
        → ((v : ℕ) (row : SyncEvent) → Keeps Inv (rest v row))
        → Ensures Inv
            (next_company_version ctx.company_id >>= λ v. update_event id (f v) >>= rest v)
            (λ a. Inv)
    versioned id f rest key version owned keeps =
        Ensures-bind Inv (HoldsFresh ctx.company_id Q) _ _ _
          (next_company_version-Ensures ctx.company_id Q stable)
          λ v.
            Ensures-bind _ (λ r. Inv) _ _ _
              (update_fresh-Ensures ctx.company_id Q stable id v (f v) (key v) (version v) owned)
              (λ row. Ensures_of_keeps Inv _ (keeps v row))

    checkpoint_last :
        (feature device : String) (v : ℕ) (status : EventStatus)
        → Keeps Inv (record_push ctx device feature v >> pure status)
    checkpoint_last feature device v status =
        Keeps-bind _ _ (record_push-Keeps ctx.company_id Q ctx device feature v)
          (λ w. Keeps-pure status)

    -- the writes that need no version
    unversioned :
        (id : ℕ) (f : SyncEvent → SyncEvent) (status : EventStatus)
        → KeepsKey f
        → ((e : SyncEvent) → (f e).server_version ≡ e.server_version)
        → ((e : SyncEvent) → counts ctx.company_id (f e) ≡ true → counts ctx.company_id e ≡ true)
        → ((s : Store D) → Inv s → IsOwned ctx.company_id id s.events)
        → Ensures Inv (update_event id f >> pure status) (λ a. Inv)
    unversioned id f status key version published owned =
        Ensures-bind Inv (λ r. Inv) _ _ _
          (update_same-Ensures ctx.company_id Q stable id f key version published owned)
          (λ r. Ensures-pure _ _ _ (λ s h. h))

    stored_outcome-Ensures :
        (flag : Bool) (stored : SyncEvent) (outcome : Outcome)
        → ((s : Store D) → Inv s → IsOwned ctx.company_id stored.id s.events)
        → Ensures Inv (stored_outcome js m ctx flag stored outcome) (λ a. Inv)
    unfolding stored_outcome
    stored_outcome-Ensures flag stored (Outcome.deferred code) owned =
        unversioned stored.id _ EventStatus.pending
          (record {
            id = λ e. refl;
            company_id = λ e. refl;
            device_id = λ e. refl;
            event_id = λ e. refl;
          })
          (λ e. refl) (λ e k. k) owned
    stored_outcome-Ensures flag stored (Outcome.duplicate server_id version) owned =
        unversioned stored.id _ EventStatus.duplicate
          (record {
            id = λ e. refl;
            company_id = λ e. refl;
            device_id = λ e. refl;
            event_id = λ e. refl;
          })
          (λ e. refl) (λ e k. ground arith) owned
    stored_outcome-Ensures flag stored (Outcome.rejected code) owned =
        unversioned stored.id _ EventStatus.rejected
          (record {
            id = λ e. refl;
            company_id = λ e. refl;
            device_id = λ e. refl;
            event_id = λ e. refl;
          })
          (λ e. refl) (λ e k. ground arith) owned
    stored_outcome-Ensures flag stored (Outcome.conflict code) owned =
        versioned stored.id _ _
          (λ v. (record {
            id = λ e. refl;
            company_id = λ e. refl;
            device_id = λ e. refl;
            event_id = λ e. refl;
          }))
          (λ v e. refl) owned
          (λ v row.
            Keeps-bind _ _
              (Keeps-if flag _ _ (create_conflict-Keeps ctx.company_id Q (conflict_of ctx row code))
                (Keeps-pure tt))
              (λ u. checkpoint_last row.feature row.device_id v EventStatus.conflict))
    stored_outcome-Ensures flag stored (Outcome.accepted server_id materialized_at) owned =
        versioned stored.id _ _
          (λ v. (record {
            id = λ e. refl;
            company_id = λ e. refl;
            device_id = λ e. refl;
            event_id = λ e. refl;
          }))
          (λ v e. refl) owned
          (λ v row. checkpoint_last row.feature row.device_id v EventStatus.accepted)

    pub materialize_stored_event-Ensures :
        (flag : Bool) (stored : SyncEvent)
        → ((s : Store D) → Inv s → IsOwned ctx.company_id stored.id s.events)
        → Ensures Inv (materialize_stored_event js m ctx flag stored) (λ a. Inv)
    unfolding materialize_stored_event
    materialize_stored_event-Ensures flag stored owned =
        Ensures-bind Inv (λ o. Inv) _ _ _
          (Ensures_of_keeps Inv _
            (materialize-Keeps (some stored.device_id) (event_of_row js stored)))
          (λ outcome. stored_outcome-Ensures flag stored outcome owned)

    materialize_all-Ensures :
        (rows : List SyncEvent)
        → ((s : Store D) → Inv s → AllOwned ctx.company_id rows s.events)
        → Ensures Inv (materialize_all js m ctx rows) (λ a. Inv)
    unfolding materialize_all
    materialize_all-Ensures [] owned = Ensures-pure _ _ _ (λ s h. h)
    materialize_all-Ensures (r ∷ rows) owned =
        Ensures-bind Inv (λ a. Inv) _ _ _
          (materialize_stored_event-Ensures true r (λ s h. (owned s h).0))
          (λ a. materialize_all-Ensures rows (λ s h. (owned s h).1))

module _ (js : Runtime) {D : Type 0} (m : Materializer D) (ctx : Context)
    (Q : List SyncState → List SyncEvent → Type 0) (stable : IsStable ctx.company_id Q) where
  -- The rows that the query finds are the tenant's, and stay so while they are worked through.
  abbrev WithRows : List SyncEvent → List SyncState → List SyncEvent → Type 0
  WithRows rows ss es = Q ss es × AllOwned ctx.company_id rows es

  pending-mine :
      (r : SyncEvent) → is_pending_item js m ctx r ≡ true → (r.company_id == ctx.company_id) ≡ true
  unfolding is_pending_item
  pending-mine r h = ground arith

  rows_owned :
      (s : Store D)
      → Holds ctx.company_id Q s
      → AllOwned ctx.company_id (take 100 (filter (is_pending_item js m ctx) s.events)) s.events
  rows_owned s h = All-of_Elem _ _ (λ r e.
      let (stored, chosen) = (Elem-filter _ r s.events).0 (Elem-of_take 100 r _ e) in
      IsOwned-of_Elem ctx.company_id r s.events h.numbered.apart stored
        ((eq_iff _ _).0 (pending-mine r chosen)))

  materialize_rows :
      (rows : List SyncEvent) (s : Store D)
      → Holds ctx.company_id Q s
      → AllOwned ctx.company_id rows s.events
      → Returns (λ a. Holds ctx.company_id Q) (materialize_all js m ctx rows s)
  materialize_rows rows s h owned =
      Returns-weaken (λ a. Holds ctx.company_id (WithRows rows)) (λ a. Holds ctx.company_id Q) _
        (λ a t k. record { numbered = k.numbered; fact = k.fact.0 })
        ((materialize_all-Ensures js m ctx (WithRows rows)
            (Both-IsStable ctx.company_id Q (λ ss es. AllOwned ctx.company_id rows es) stable
              (AllOwned-IsStable ctx.company_id rows))
            rows (λ t k. k.fact.1)).at
          s (record { numbered = h.numbered; fact = (h.fact, owned) }))

  pub reprocess_pending_dependents-Ensures :
      Ensures
        (Holds ctx.company_id Q)
        (reprocess_pending_dependents js m ctx)
        (λ a. Holds ctx.company_id Q)
  unfolding reprocess_pending_dependents ◌>>=◌
  reprocess_pending_dependents-Ensures = record {
    at = λ s h. materialize_rows _ s h (rows_owned s h);
  }
