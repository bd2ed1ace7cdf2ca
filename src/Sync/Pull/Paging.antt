-- ===== src/Sync/Pull/Paging.antt =====
-- Paging through a tenant's events by their versions, as `pull` does.
use tatuzin.Prelude.{
  ℕ, zero, suc, ◌≤◌, ◌<◌, ◌≡◌, refl, sym, ◌∙◌, true, ◌⊎◌, inl, inr, List, [], arith, All, take,
  length, nat_eq_iff,
}
use tatuzin.Exec.{Result, ok}
use tatuzin.Sync.Types.{Context, SyncEvent, Store}
use tatuzin.Sync.Numbering.{IsNumbered}
use tatuzin.Sync.Order.Laws.{
  Elem, IsSorted, by_version_asc-IsSorted, All-of_Elem, take-IsSorted, length-take_le,
}
use tatuzin.Sync.Pull.{Query, is_selected, page_of, latest_version, Page, pull}
use tatuzin.Sync.Pull.Rows.{reply-pull, selected_later, found, Elem-rows, rows_cover, advances}

take_none : (n : ℕ) (xs : List SyncEvent) → n ≡ 0 → take n xs ≡ []
take_none zero xs z = refl
take_none (suc n) xs z = absurd (omega arith)

module _ {D : Type 0} (ctx : Context) (q : Query) (s : Store D) where
  abbrev pub reply : Result Page
  reply = (pull ctx q s).0

  abbrev pub next : ℕ → Query
  next n = record q { since_version = n }

-- Where the tenant's events are numbered, a pull leaves no event out: each stored event that the
-- query selects is in the page, or the reply says that there is more and the same query from the
-- version that the reply names selects the event.
pub pull_covers :
    {D : Type 0} (ctx : Context) (q : Query) (s : Store D) (e : SyncEvent)
    → IsNumbered ctx.company_id s
    → Elem e s.events
    → is_selected ctx q s.conflicts e ≡ true
    → (p : Page) × (reply ctx q s ≡ ok p)
      × (Elem e p.changes
          ⊎ ((p.has_more ≡ true)
              × (is_selected ctx (next ctx q s p.next_since_version) s.conflicts e ≡ true)))
pull_covers ctx q s e numbered in_events chosen =
    let (p, answered, changes, version, more, _) = reply-pull ctx q s in
    (
      p,
      answered,
      elim (rows_cover ctx q s.conflicts s.events e numbered.apart in_events chosen) [
        | inl h ↦ inl (rw changes h)
        | inr (full, later) ↦ inr (
          rw (more, changes) ((nat_eq_iff _ _).1 full),
          selected_later ctx q s.conflicts e p.next_since_version chosen
              (rw (version, changes) later),
        )
      ],
    )

-- The page of a pull holds at most `limit` events, in the order of their versions, and each is a
-- stored event that the query selects.
pub pull_sound :
    {D : Type 0} (ctx : Context) (q : Query) (s : Store D)
    → (p : Page) × (reply ctx q s ≡ ok p)
      × (length p.changes ≤ q.limit)
      × IsSorted p.changes
      × All (λ e. Elem e s.events × (is_selected ctx q s.conflicts e ≡ true)) p.changes
unfolding page_of
pull_sound ctx q s =
    let (p, answered, changes, _, _, _) = reply-pull ctx q s in
    let sorted = by_version_asc-IsSorted (found ctx q s.conflicts s.events) in
    (
      p,
      answered,
      rw (changes, page_of) (length-take_le q.limit _),
      rw (changes, page_of) (take-IsSorted q.limit _ sorted),
      rw changes (All-of_Elem _ _ (Elem-rows ctx q s.conflicts s.events)),
    )

-- A pull of a positive limit that announces more answers a later version than it was asked for, so
-- a client that goes on from there does not ask for the same page again.
pub pull_progress :
    {D : Type 0} (ctx : Context) (q : Query) (s : Store D)
    → 0 < q.limit
    → (p : Page) × (reply ctx q s ≡ ok p)
      × (p.has_more ≡ true → q.since_version < p.next_since_version)
pull_progress ctx q s pos =
    let (p, answered, changes, version, more, _) = reply-pull ctx q s in
    (
      p,
      answered,
      λ full.
          rw (version, changes)
            (advances ctx q s.conflicts s.events pos
              ((nat_eq_iff _ _).0 (rw (more, changes) at full))),
    )

-- A pull of limit zero announces more and answers the version that it was asked for, whatever is
-- stored: a client that goes on while there is more never ends.
pub pull-limit_zero :
    {D : Type 0} (ctx : Context) (q : Query) (s : Store D)
    → q.limit ≡ 0
    → (p : Page) × (reply ctx q s ≡ ok p)
      × (p.has_more ≡ true)
      × (p.next_since_version ≡ q.since_version)
unfolding page_of latest_version
pull-limit_zero ctx q s z =
    let (p, answered, changes, version, more, _) = reply-pull ctx q s in
    let none_found : p.changes ≡ [] = changes ∙ take_none q.limit _ z in
    (p, answered, rw (more, none_found) ((nat_eq_iff _ _).1 (sym z)), rw (version, none_found))
