-- ===== src/Sync/Push/Tenants.antt =====
-- A push of one tenant keeps the numbering of every tenant.
use mathlib.Core.Path.{subst}
use tatuzin.Prelude.{
  String, ◌≡◌, ◌≢◌, refl, sym, Bool, true, false, ◌==◌, inl, inr, List, [], ◌∷◌, filter, All,
  All-map, Bool-cases, ◌∙◌, eq_iff,
}
use tatuzin.Payload.Json.{Json, Runtime}
use tatuzin.Sync.Types.{Context, SyncEvent, Store, Materializer}
use tatuzin.Sync.Tables.{version_of}
use tatuzin.Sync.Numbering.{IsNumbered, HasVersionUpTo, Apart, Pairwise, counts}
use tatuzin.Sync.Numbering.Facts.{events_of, IsUntouched, IsUntouched-IsStable, always-IsStable}
use tatuzin.Payload.Identity.{PushEvent}
use tatuzin.Sync.Process.{process_event}
use tatuzin.Sync.Process.Keeps.{process_event-Keeps}
use tatuzin.Sync.Push.{push}
use tatuzin.Sync.Push.Guarantees.{push-IsNumbered, push_isolates}

All-filter :
    (P : SyncEvent → Type 0) (q : SyncEvent → Bool) (es : List SyncEvent)
    → All P es
    → All P (filter q es)
All-filter P q [] h = tt
All-filter P q (e ∷ es) (p, h) = elim (Bool-cases (q e)) [
  | inl t ↦ rw t (p, All-filter P q es h)
  | inr t ↦ rw t (All-filter P q es h)
]

-- What holds of the rows that pass, and of every row that does not.
All-unfilter :
    {P : SyncEvent → Type 0} (q : SyncEvent → Bool) (es : List SyncEvent)
    → ((e : SyncEvent) → q e ≡ false → P e)
    → All P (filter q es)
    → All P es
All-unfilter q [] other h = tt
All-unfilter q (e ∷ es) other h = elim (Bool-cases (q e)) [
  | inl t ↦ let (p, rest) = rw t at h in (p, All-unfilter q es other rest)
  | inr t ↦ (other e t, All-unfilter q es other (rw t at h))
]

Pairwise-filter :
    (R : SyncEvent → SyncEvent → Type 0) (q : SyncEvent → Bool) (es : List SyncEvent)
    → Pairwise R es
    → Pairwise R (filter q es)
Pairwise-filter R q [] h = tt
Pairwise-filter R q (e ∷ es) (r, h) = elim (Bool-cases (q e)) [
  | inl t ↦ rw t (All-filter (R e) q es r, Pairwise-filter R q es h)
  | inr t ↦ rw t (Pairwise-filter R q es h)
]

not_counted :
    (company : String) (e : SyncEvent)
    → (e.company_id == company) ≡ false
    → counts company e ≡ false
not_counted company e h = rw h refl

-- The ids of all rows and the versions of one tenant's rows, put together.
Apart-unfilter :
    (other company : String) (es : List SyncEvent)
    → Pairwise (Apart company) es
    → Pairwise (Apart other) (events_of other es)
    → Pairwise (Apart other) es
Apart-unfilter other company [] ids own = tt
Apart-unfilter other company (e ∷ es) (r, ids) own = elim (Bool-cases (e.company_id == other)) [
  | inl t ↦
      let (apart, rest) = rw t at own in (both es r apart, Apart-unfilter other company es ids rest)
  | inr t ↦ (
    All-map es (λ y p. (p.0, λ c d. absurd (off e t c))) r,
    Apart-unfilter other company es ids (rw t at own),
  )
]
  where
    off : (x : SyncEvent) → (x.company_id == other) ≡ false → counts other x ≢ true
    off x t c = let bad : true ≡ false = sym c ∙ not_counted other x t in cc

    both :
        (ys : List SyncEvent)
        → All (Apart company e) ys
        → All (Apart other e) (events_of other ys)
        → All (Apart other e) ys
    both [] r apart = tt
    both (y ∷ ys) (p, r) apart = elim (Bool-cases (y.company_id == other)) [
      | inl t ↦ let (q, rest) = rw t at apart in (q, both ys r rest)
      | inr t ↦ ((p.0, λ c d. absurd (off y t d)), both ys r (rw t at apart))
    ]

-- Every tenant's events are numbered.
abbrev pub IsNumberedForAll : {D : Type 0} → Store D → Type 0
IsNumberedForAll s = (company : String) → IsNumbered company s

-- Actions of one tenant that keep its numbering and leave the others untouched.
numbered_after :
    (company : String) {D : Type 0} (s t : Store D)
    → IsNumberedForAll s
    → IsNumbered company t
    → ((other : String)
        → company ≢ other
        → IsUntouched other
            (events_of other s.events)
            (version_of other s.states)
            t.states
            t.events)
    → IsNumberedForAll t
numbered_after company s t numbered own untouched other = elim (Bool-cases (company == other)) [
  | inl e ↦ subst (λ c. IsNumbered c t) ((eq_iff company other).0 e) own
  | inr e ↦
      let differs : company ≢ other =
        λ same. let bad : true ≡ false = sym ((eq_iff company other).1 same) ∙ e in cc in
      let (rows, version) = untouched other differs in
      let before = numbered other in
      record {
        bounded =
            All-unfilter (λ e. e.company_id == other) t.events
              (λ x off c. let bad : true ≡ false = sym c ∙ not_counted other x off in absurd cc)
              (subst (λ n. All (HasVersionUpTo other n) (events_of other t.events)) (sym version)
                (subst (λ es. All (HasVersionUpTo other (version_of other s.states)) es) (sym rows)
                  (All-filter _ (λ e. e.company_id == other) s.events before.bounded)));
        apart = Apart-unfilter other company t.events own.apart (
            subst (λ es. Pairwise (Apart other) es) (sym rows)
              (Pairwise-filter _ (λ e. e.company_id == other) s.events before.apart));
        ids = own.ids;
      }
]

-- From a store where the events of every tenant are numbered (the published ones of a tenant have
-- distinct versions up to its current one, and all events distinct ids below the next one), a push
-- of any tenant leads to such a store, whatever its body is and whether it answers or throws.
pub push-IsNumberedForAll :
    (js : Runtime) (is_datetime : String → Bool) {D : Type 0} (m : Materializer D) (ctx : Context)
    (body : Json) (s : Store D)
    → IsNumberedForAll s
    → IsNumberedForAll (push js is_datetime m ctx body s).1
push-IsNumberedForAll js is_datetime m ctx body s numbered =
    numbered_after ctx.company_id s _ numbered
      (push-IsNumbered js is_datetime m ctx body s (numbered ctx.company_id))
      (push_isolates js is_datetime m ctx body s (numbered ctx.company_id))

pub process_event-IsNumberedForAll :
    (js : Runtime) {D : Type 0} (m : Materializer D) (ctx : Context) (event : PushEvent)
    (s : Store D)
    → IsNumberedForAll s
    → IsNumberedForAll (process_event js m ctx event s).1
process_event-IsNumberedForAll js m ctx event s numbered =
    numbered_after ctx.company_id s _ numbered
      ((process_event-Keeps js m ctx (λ ss es. Unit) (always-IsStable ctx.company_id) event).at s
        (record { numbered = numbered ctx.company_id; fact = tt })).numbered
      (λ other ne.
        ((process_event-Keeps js m ctx
            (IsUntouched other (events_of other s.events) (version_of other s.states))
            (IsUntouched-IsStable ctx.company_id other _ _ ne) event).at
          s (record { numbered = numbered ctx.company_id; fact = (refl, refl) })).fact)
