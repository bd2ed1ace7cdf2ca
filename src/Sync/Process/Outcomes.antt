-- ===== src/Sync/Process/Outcomes.antt =====
-- What `processEvent` answers and stores for each outcome of a materializer, exceptions included.
use tatuzin.Prelude.{
  ℕ, suc, String, ◌≡◌, refl, sym, ap, ◌∙◌, Bool, true, false, Option, none, some, List, [], ◌∷◌,
  ◌++◌, inl, inr, any, find?, eq_refl, length, length-snoc, Bool-cases,
}
use tatuzin.Payload.Json.{Runtime}
use tatuzin.Payload.Identity.{PushEvent}
use tatuzin.Exec.{ok, err, Error, unique_violation, pure, transaction, catch, ◌>>=◌, >>=-eq-ok}
use tatuzin.Sync.Types.{Context, SyncEvent, EventStatus, Store, Outcome, Materializer, has_key}
use tatuzin.Sync.Tables.{create_event, create_incident, version_of, bump, next_company_version}
use tatuzin.Sync.Event.{
  Bucket, Item, is_local_first_entity, is_allowed_operation, row_of, item_of, date,
}
use tatuzin.Sync.Process.{
  Answer, fail_event, settle, materialize_event, process_new, process_found, process_event,
  find_event,
}
use tatuzin.Sync.Tables.Lists.{version_of-bump}

-- The bucket of the reply for an outcome, and the version that the reply names, where the
-- tenant's version was `n`.
abbrev pub bucket_of : Outcome → Bucket
bucket_of (Outcome.accepted server_id at) = Bucket.accepted
bucket_of (Outcome.duplicate server_id version) = Bucket.duplicates
bucket_of (Outcome.rejected code) = Bucket.rejected
bucket_of (Outcome.deferred code) = Bucket.accepted
bucket_of (Outcome.conflict code) = Bucket.conflicts

abbrev pub announced : ℕ → Outcome → Option ℕ
announced n (Outcome.accepted server_id at) = some (suc n)
announced n (Outcome.duplicate server_id version) = version
announced n (Outcome.rejected code) = none
announced n (Outcome.deferred code) = none
announced n (Outcome.conflict code) = some (suc n)

module _ {D : Type 0} (row : SyncEvent) (s : Store D) where
  abbrev new_row : SyncEvent
  new_row = record row { id = s.next_id }

  abbrev with_row : Store D
  with_row = record s { events = s.events ++ new_row ∷ []; next_id = suc s.next_id }

  pub create_event_absent :
      any (has_key row.company_id row.device_id row.event_id) s.events ≡ false
      → create_event row s ≡ (ok new_row, with_row)
  unfolding create_event
  create_event_absent h = rw h refl

pub any_of_none :
    (p : SyncEvent → Bool) (es : List SyncEvent) → find? p es ≡ none → any p es ≡ false
any_of_none p [] h = refl
any_of_none p (e ∷ es) h = elim (Bool-cases (p e)) [
  | inl t ↦ let bad : some e ≡ none = rw t at h in cc
  | inr t ↦ rw t (any_of_none p es (rw t at h))
]

module _ (js : Runtime) {D : Type 0} (m : Materializer D) (ctx : Context) (event : PushEvent) where
  -- the row of a failed event
  abbrev pub failed_row : SyncEvent
  failed_row =
      row_of ctx event (date js m ctx event.occurred_at) EventStatus.failed event.entity_server_id
        none (some "SYNC_MATERIALIZATION_FAILED") none

  -- A new event whose transaction throws, whatever it wrote before, is answered as rejected with
  -- the code of the failure; what remains is one event row with the status FAILED and one
  -- incident, and the domain, versions, checkpoints and conflicts are as before.
  pub process_failed :
      (s t : Store D) (e : Error)
      → find_event js m ctx event.event_id s ≡ none
      → is_local_first_entity event.entity ≡ true
      → is_allowed_operation event.operation ≡ true
      → materialize_event js m ctx event s ≡ (err e, t)
      → (u : Store D) × (process_event js m ctx event s ≡ (
        ok (
          Bucket.rejected,
          item_of event none event.entity_server_id (some "SYNC_MATERIALIZATION_FAILED"),
        ),
        u,
      ))
        × (u.events ≡ s.events ++ (record failed_row { id = s.next_id }) ∷ [])
        × (length u.incidents ≡ suc (length s.incidents))
        × (u.domain ≡ s.domain)
        × (u.states ≡ s.states)
        × (u.checkpoints ≡ s.checkpoints)
        × (u.conflicts ≡ s.conflicts)
  unfolding process_event process_found process_new catch transaction fail_event create_event
      create_incident ◌>>=◌
  process_failed s t e absent entity operation thrown =
      rw (absent, entity, operation, thrown)
        (rw (any_of_none _ s.events absent)
          (_, refl, refl, length-snoc s.incidents _, refl, refl, refl, refl))

-- the outcomes that take a version
abbrev pub takes_version : Outcome → Bool
takes_version (Outcome.accepted server_id at) = true
takes_version (Outcome.conflict code) = true
takes_version _ = false

module _ {D : Type 0} (row r : SyncEvent) (s t : Store D) where
  created_row :
      create_event row s ≡ (ok r, t)
      → (r.server_version ≡ row.server_version) × (t.states ≡ s.states)
  unfolding create_event
  created_row h =
      elim (Bool-cases (any (has_key row.company_id row.device_id row.event_id) s.events)) [
        | inl p ↦ let bad : err unique_violation ≡ ok r = ap (λ r. r.0) (rw p at h) in cc
        | inr p ↦
            let done : (ok (new_row row s), with_row row s) ≡ (ok r, t) = rw p at h in
            let same : ok (new_row row s) ≡ ok r = ap (λ r. r.0) done in
            let eq : new_row row s ≡ r = cc in
            (
              sym (ap (λ (x : SyncEvent). x.server_version) eq),
              sym (ap (λ x. Store.states (x.1)) done),
            )
      ]

module _ {D : Type 0} (a b : Answer) (s t : Store D) (h : pure a s ≡ (ok b, t)) where
  same_answer : a ≡ b
  same_answer = let eq : ok a ≡ ok b = ap (λ r. r.0) h in cc

  same_store : s ≡ t
  same_store = ap (λ r. r.1) h

next_version :
    {D : Type 0} (company : String) (v : ℕ) (s t : Store D)
    → next_company_version company s ≡ (ok v, t)
    → v ≡ suc (version_of company s.states)
unfolding next_company_version
next_version company v s t h =
    let taken : ℕ = version_of company (bump company s.states) in
    let same : ok taken ≡ ok v = ap (λ r. r.0) h in
    let eq : taken ≡ v = cc in
    let raised = version_of-bump company company s.states in
    sym eq ∙ raised ∙ rw (eq_refl company) refl

module _ (js : Runtime) {D : Type 0} (m : Materializer D) (ctx : Context) (event : PushEvent) where
  -- Where the transaction of a new event commits, the bucket and the version of its answer are
  -- those that its outcome has: the tenant's next version for an accepted event and a conflict, no
  -- version for a rejected or deferred one, the given one for a duplicate; and where the outcome
  -- takes no version, the tenants' versions stay as they were.
  pub settle_answers :
      (outcome : Outcome) (bucket : Bucket) (item : Item) (s t : Store D)
      → settle js m ctx event outcome s ≡ (ok (bucket, item), t)
      → (bucket ≡ bucket_of outcome)
        × (item.server_version ≡ announced (version_of ctx.company_id s.states) outcome)
        × (takes_version outcome ≡ false → t.states ≡ s.states)
  unfolding settle
  settle_answers (Outcome.duplicate server_id version) bucket item s t h =
      let (row, u, made, last) = >>=-eq-ok _ _ s h in
      let (of_row, states) = created_row _ row s u made in
      let eq = same_answer _ _ u t last in
      (
        ap (λ x. x.0) (sym eq),
        ap (λ (x : Answer). Item.server_version x.1) (sym eq) ∙ of_row,
        λ no. ap (λ (x : Store D). x.states) (sym (same_store _ _ u t last)) ∙ states,
      )
  settle_answers (Outcome.rejected code) bucket item s t h =
      let (row, u, made, last) = >>=-eq-ok _ _ s h in
      let (of_row, states) = created_row _ row s u made in
      let eq = same_answer _ _ u t last in
      (
        ap (λ x. x.0) (sym eq),
        ap (λ (x : Answer). Item.server_version x.1) (sym eq),
        λ no. ap (λ (x : Store D). x.states) (sym (same_store _ _ u t last)) ∙ states,
      )
  settle_answers (Outcome.deferred code) bucket item s t h =
      let (row, u, made, last) = >>=-eq-ok _ _ s h in
      let (of_row, states) = created_row _ row s u made in
      let eq = same_answer _ _ u t last in
      (
        ap (λ x. x.0) (sym eq),
        ap (λ (x : Answer). Item.server_version x.1) (sym eq),
        λ no. ap (λ (x : Store D). x.states) (sym (same_store _ _ u t last)) ∙ states,
      )
  settle_answers (Outcome.conflict code) bucket item s t h =
      let (v, u, taken, h1) = >>=-eq-ok _ _ s h in
      let (row, u2, made, h2) = >>=-eq-ok _ _ u h1 in
      let (_, u3, _, h3) = >>=-eq-ok _ _ u2 h2 in
      let (_, u4, _, h4) = >>=-eq-ok _ _ u3 h3 in
      let (_, u5, _, last) = >>=-eq-ok _ _ u4 h4 in
      let eq = same_answer _ _ u5 t last in
      (
        ap (λ x. x.0) (sym eq),
        ap (λ (x : Answer). Item.server_version x.1) (sym eq)
            ∙ ap some (next_version ctx.company_id v s u taken),
        λ yes. absurd cc,
      )
  settle_answers (Outcome.accepted server_id at) bucket item s t h =
      let (v, u, taken, h1) = >>=-eq-ok _ _ s h in
      let (row, u2, made, h2) = >>=-eq-ok _ _ u h1 in
      let (_, u3, _, h3) = >>=-eq-ok _ _ u2 h2 in
      let (_, u4, _, last) = >>=-eq-ok _ _ u3 h3 in
      let eq = same_answer _ _ u4 t last in
      (
        ap (λ x. x.0) (sym eq),
        ap (λ (x : Answer). Item.server_version x.1) (sym eq)
            ∙ ap some (next_version ctx.company_id v s u taken),
        λ yes. absurd cc,
      )
