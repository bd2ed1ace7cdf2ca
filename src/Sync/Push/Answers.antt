-- ===== src/Sync/Push/Answers.antt =====
-- What a push answers: one item for each event of the batch, and the refusals.
use tatuzin.Prelude.{
  ℕ, suc, ◌+◌, ◌≤◌, ◌<◌, String, ◌≡◌, ◌≢◌, refl, sym, ap, ◌∙◌, Bool, true, false, none, some, List,
  [], ◌∷◌, ◌++◌, ◌⊎◌, if◌then◌else◌, inl, inr, arith, ltb, length, length-snoc, Bool-cases,
}
use tatuzin.Payload.Json.{Json, Runtime}
use tatuzin.Exec.{ok, err, app_error, pure, ◌>>=◌, >>=-eq-ok}
use tatuzin.Sync.Types.{Context, Store, Materializer, Incident}
use tatuzin.Sync.Tables.{create_incident, version_of, get_current_version}
use mathlib.Core.Path.{subst}
use tatuzin.Sync.Event.{Bucket, Item}
use tatuzin.Sync.Process.{Answer}
use tatuzin.Sync.Schema.{parse_batch}
use tatuzin.Sync.Push.{
  Buckets, put, Reply, push, push_all, push_one, push_batch, no_items, max_events_per_push,
}

abbrev pub size : Buckets → ℕ
size b = length b.accepted + length b.duplicates + length b.rejected + length b.conflicts

abbrev is_bucket : Bucket → Bucket → Bool
is_bucket Bucket.accepted Bucket.accepted = true
is_bucket Bucket.duplicates Bucket.duplicates = true
is_bucket Bucket.rejected Bucket.rejected = true
is_bucket Bucket.conflicts Bucket.conflicts = true
is_bucket _ _ = false

-- the items of the answers that name a bucket
abbrev pub items_for : Bucket → List Answer → List Item
items_for k [] = []
items_for k ((b, item) ∷ answers) =
    let rest = items_for k answers in if is_bucket k b then item ∷ rest else rest

-- The lists are the answers by their buckets, each in the order of the answers.
pub record IsSorted (answers : List Answer) (b : Buckets) : Type 0 where
  pub accepted : b.accepted ≡ items_for Bucket.accepted answers
  pub duplicates : b.duplicates ≡ items_for Bucket.duplicates answers
  pub rejected : b.rejected ≡ items_for Bucket.rejected answers
  pub conflicts : b.conflicts ≡ items_for Bucket.conflicts answers

-- The answers are put after what is in the lists.
abbrev add_all : Buckets → List Answer → Buckets
add_all b answers = record {
  accepted = b.accepted ++ items_for Bucket.accepted answers;
  duplicates = b.duplicates ++ items_for Bucket.duplicates answers;
  rejected = b.rejected ++ items_for Bucket.rejected answers;
  conflicts = b.conflicts ++ items_for Bucket.conflicts answers;
}

append_one : (xs : List Item) (x : Item) (ys : List Item) → (xs ++ x ∷ []) ++ ys ≡ xs ++ x ∷ ys
append_one [] x ys = refl
append_one (y ∷ xs) x ys = ap (λ zs. y ∷ zs) (append_one xs x ys)

append_none : (xs : List Item) → xs ++ [] ≡ xs
append_none [] = refl
append_none (x ∷ xs) = ap (λ zs. x ∷ zs) (append_none xs)

add_all-put :
    (a : Answer) (b : Buckets) (answers : List Answer)
    → add_all (put a b) answers ≡ add_all b (a ∷ answers)
unfolding put
add_all-put (Bucket.accepted, item) b answers =
    ap (λ (xs : List Item). record (add_all b answers) { accepted = xs })
      (append_one b.accepted item (items_for Bucket.accepted answers))
add_all-put (Bucket.duplicates, item) b answers =
    ap (λ (xs : List Item). record (add_all b answers) { duplicates = xs })
      (append_one b.duplicates item (items_for Bucket.duplicates answers))
add_all-put (Bucket.rejected, item) b answers =
    ap (λ (xs : List Item). record (add_all b answers) { rejected = xs })
      (append_one b.rejected item (items_for Bucket.rejected answers))
add_all-put (Bucket.conflicts, item) b answers =
    ap (λ (xs : List Item). record (add_all b answers) { conflicts = xs })
      (append_one b.conflicts item (items_for Bucket.conflicts answers))

add_all-nothing : (b : Buckets) → add_all b [] ≡ b
add_all-nothing b =
    rw
      (
        append_none b.accepted,
        append_none b.duplicates,
        append_none b.rejected,
        append_none b.conflicts,
      )
      refl

size-put : (a : Answer) (b : Buckets) → size (put a b) ≡ suc (size b)
unfolding put
size-put (Bucket.accepted, item) b = omega (arith, length-snoc b.accepted item)
size-put (Bucket.duplicates, item) b = omega (arith, length-snoc b.duplicates item)
size-put (Bucket.rejected, item) b = omega (arith, length-snoc b.rejected item)
size-put (Bucket.conflicts, item) b = omega (arith, length-snoc b.conflicts item)

ltb_of_lt : (a b : ℕ) → a < b → ltb a b ≡ true
ltb_of_lt a b h = ground arith

module _ (js : Runtime) (is_datetime : String → Bool) {D : Type 0} (m : Materializer D)
    (ctx : Context) where
  -- The answers to the events, each given by the body of the loop in the state that the event
  -- before it left.
  abbrev pub IsAnswered : List Json → List Answer → Store D → Store D → Type 0
  IsAnswered [] [] s t = s ≡ t
  IsAnswered (raw ∷ rest) (a ∷ answers) s t =
      (u : Store D) × (push_one js is_datetime m ctx raw s ≡ (ok a, u))
      × IsAnswered rest answers u t
  IsAnswered [] (a ∷ answers) s t = ⊥
  IsAnswered (raw ∷ rest) [] s t = ⊥

  push_all_answers :
      (events : List Json) (b c : Buckets) (s t : Store D)
      → push_all js is_datetime m ctx events b s ≡ (ok c, t)
      → (answers : List Answer) × IsAnswered events answers s t × (c ≡ add_all b answers)
  unfolding push_all
  push_all_answers [] b c s t h =
      let same : ok b ≡ ok c = ap (λ r. r.0) h in
      let eq : b ≡ c = cc in ([], ap (λ r. r.1) h, sym eq ∙ sym (add_all-nothing b))
  push_all_answers (raw ∷ rest) b c s t h =
      let (a, u, one, others) = >>=-eq-ok (push_one js is_datetime m ctx raw) _ s h in
      let (answers, answered, sorted) = push_all_answers rest (put a b) c u t others in
      (a ∷ answers, (u, one, answered), sorted ∙ add_all-put a b answers)

  push_all_tally :
      (events : List Json) (b c : Buckets) (s t : Store D)
      → push_all js is_datetime m ctx events b s ≡ (ok c, t)
      → size c ≡ length events + size b
  unfolding push_all
  push_all_tally [] b c s t h =
      let same : ok b ≡ ok c = ap (λ r. r.0) h in
      let eq : b ≡ c = cc in let sizes = ap size (sym eq) in omega (arith, sizes)
  push_all_tally (raw ∷ rest) b c s t h =
      let (a, u, one, others) = >>=-eq-ok (push_one js is_datetime m ctx raw) _ s h in
      let eq = push_all_tally rest (put a b) c u t others in omega (arith, eq, size-put a b)

  too_long :
      (events : List Json) (r : Reply) (s t : Store D)
      → ltb max_events_per_push (length events) ≡ true
      → push_batch js is_datetime m ctx (some events) s ≢ (ok r, t)
  unfolding push_batch ◌>>=◌ create_incident
  too_long events r s t long h =
      let bad : err (app_error 413 "SYNC_BATCH_TOO_LARGE") ≡ ok r = ap (λ r. r.0) (rw long at h) in
      cc

  answered :
      (events : List Json) (b : Buckets) (u : Store D) (r : Reply) (t : Store D) (v : ℕ)
      (w : Store D)
      → ltb max_events_per_push (length events) ≡ false
      → size b ≡ length events + 0
      → get_current_version ctx.company_id u ≡ (ok v, w)
      → pure (record { current_server_version = v; buckets = b }) w ≡ (ok r, t)
      → (size r.buckets ≡ length events)
        × (length events ≤ 100)
        × (r.current_server_version ≡ version_of ctx.company_id t.states)
  unfolding get_current_version
  answered events b u r t v w short tally version last =
      let made : Reply = record { current_server_version = v; buckets = b } in
      let same : ok made ≡ ok r = ap (λ r. r.0) last in
      let reply : made ≡ r = cc in
      let of_w : w ≡ t = ap (λ r. r.1) last in
      let of_u : u ≡ w = ap (λ r. r.1) version in
      let held : ℕ = version_of ctx.company_id u.states in
      let now : ok held ≡ ok v = ap (λ r. r.0) version in
      let current : held ≡ v = cc in
      let sizes : size b ≡ size r.buckets = ap (λ (x : Reply). size x.buckets) reply in
      let named : v ≡ r.current_server_version =
        ap (λ (x : Reply). x.current_server_version) reply in
      let states : version_of ctx.company_id u.states ≡ version_of ctx.company_id t.states =
        ap (λ (x : Store D). version_of ctx.company_id x.states) (of_u ∙ of_w) in
      (omega (arith, sizes, tally), ground arith, omega (arith, states, current, named))

  sorted :
      (events : List Json) (b : Buckets) (s u t : Store D) (v : ℕ) (w : Store D) (r : Reply)
      → ((answers : List Answer) × IsAnswered events answers s u × (b ≡ add_all no_items answers))
      → get_current_version ctx.company_id u ≡ (ok v, w)
      → pure (record { current_server_version = v; buckets = b }) w ≡ (ok r, t)
      → (answers : List Answer) × IsAnswered events answers s t × IsSorted answers r.buckets
  unfolding get_current_version
  sorted events b s u t v w r (answers, given, filled) version last =
      let made : Reply = record { current_server_version = v; buckets = b } in
      let same : ok made ≡ ok r = ap (λ r. r.0) last in
      let reply : made ≡ r = cc in
      let lists : r.buckets ≡ add_all no_items answers =
        ap (λ (x : Reply). x.buckets) (sym reply) ∙ filled in
      let ends : u ≡ t = ap (λ r. r.1) version ∙ ap (λ r. r.1) last in
      (
        answers,
        subst (IsAnswered events answers s) ends given,
        record {
          accepted = ap (λ (x : Buckets). x.accepted) lists;
          duplicates = ap (λ (x : Buckets). x.duplicates) lists;
          rejected = ap (λ (x : Buckets). x.rejected) lists;
          conflicts = ap (λ (x : Buckets). x.conflicts) lists;
        },
      )

  -- The incident is of the tenant, the device and the user of the push, and about no event.
  pub record IsAbout (incident : Incident) (refusal : String) : Type 0 where
    pub company_id : incident.company_id ≡ ctx.company_id
    pub device_id : incident.device_id ≡ ctx.device_id
    pub user_id : incident.user_id ≡ ctx.user_id
    pub sync_event_id : incident.sync_event_id ≡ none
    pub code : incident.code ≡ refusal

  -- A push that answers has one answer for each event of its batch, in the order of the batch, that
  -- the processing of the event gave in the state that the event before it left; each of its four
  -- lists holds the items of the answers that name the list, in that order and nothing else; the
  -- lists have as many items as the batch has events, 100 at most; and the version that it names is
  -- the tenant's version when it ends.
  pub push_tally :
      (body : Json) (events : List Json) (r : Reply) (s t : Store D)
      → parse_batch body ≡ some events
      → push js is_datetime m ctx body s ≡ (ok r, t)
      → ((answers : List Answer) × IsAnswered events answers s t × IsSorted answers r.buckets)
        × (size r.buckets ≡ length events)
        × (length events ≤ 100)
        × (r.current_server_version ≡ version_of ctx.company_id t.states)
  unfolding push push_batch
  push_tally body events r s t parsed h =
      let started : push_batch js is_datetime m ctx (some events) s ≡ (ok r, t) = rw parsed at h in
      elim (Bool-cases (ltb max_events_per_push (length events))) [
        | inl long ↦ absurd (too_long events r s t long started)
        | inr short ↦
            let (b, u, all, answer) =
              >>=-eq-ok (push_all js is_datetime m ctx events no_items) _ s (rw short at started) in
            let (v, w, version, last) = >>=-eq-ok (get_current_version ctx.company_id) _ u answer in
            let (many, most, current) =
              answered events b u r t v w short (push_all_tally events no_items b s u all) version
                last in
            (
              sorted events b s u t v w r (push_all_answers events no_items b s u all) version last,
              many,
              most,
              current,
            )
      ]

  -- A push whose body is no batch, or a batch of more than 100 events, is refused, with 422 in the
  -- first case and with 413 in the second; the only write is one incident, of this tenant, device
  -- and user, about no event, with the code of the refusal.
  pub push_refuses :
      (body : Json) (s : Store D)
      → ((parse_batch body ≡ none)
          ⊎ ((events : List Json) × (parse_batch body ≡ some events) × (100 < length events)))
      → (status : ℕ) × (code : String) × (incident : Incident) × (push js is_datetime m ctx body s
          ≡ (err (app_error status code), record s { incidents = s.incidents ++ incident ∷ [] }))
        × IsAbout incident code
        × (((parse_batch body ≡ none) × (status ≡ 422) × (code ≡ "INVALID_SYNC_BATCH"))
            ⊎ ((events : List Json) × (parse_batch body ≡ some events)
                × (100 < length events)
                × (status ≡ 413)
                × (code ≡ "SYNC_BATCH_TOO_LARGE")))
  unfolding push push_batch create_incident ◌>>=◌
  push_refuses body s (inl h) = rw h (
    _,
    _,
    _,
    refl,
    (record {
      company_id = refl;
      device_id = refl;
      user_id = refl;
      sync_event_id = refl;
      code = refl;
    }),
    inl (refl, refl, refl),
  )
  push_refuses body s (inr (events, parsed, long)) =
      rw (parsed, ltb_of_lt _ _ long)
        (
          _,
          _,
          _,
          refl,
          (record {
            company_id = refl;
            device_id = refl;
            user_id = refl;
            sync_event_id = refl;
            code = refl;
          }),
          inr (events, refl, long, refl, refl),
        )
