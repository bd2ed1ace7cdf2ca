-- ===== src/Sync/Pull/Rows.antt =====
-- The rows of a page: which events it holds, and which ones come after it.
use tatuzin.Prelude.{
  ℕ, ◌≤◌, ◌<◌, ◌≡◌, ◌≢◌, refl, sym, ap, ◌∙◌, Bool, true, ◌&&◌, ◌||◌, ◌⊎◌, inl, inr, List, [], ◌∷◌,
  arith, All, filter, length, nat_eq, ◌==◌,
}
use mathlib.Core.Bool.{and-eq-true_iff}
use tatuzin.Exec.{ok, ◌>>=◌}
use tatuzin.Sync.Types.{Context, SyncEvent, Store, Conflict, EventStatus, is_status}
use tatuzin.Sync.Numbering.{Apart, Pairwise, counts, is_published}
use tatuzin.Sync.Order.{version_key, by_version_asc}
use tatuzin.Sync.Order.Laws.{
  Elem, All-elem, Elem-by_version_asc, Elem-filter, Elem-of_take, take_cut, by_version_asc-IsSorted,
  All-of_Elem,
}
use tatuzin.Sync.Pull.{
  Query, is_visible, is_delivered, has_feature, is_from_device, conflict_is_live, is_after,
  is_selected, page_of, latest_version, Page, pull,
}

-- The answer of `pull`.
pub reply-pull :
    {D : Type 0} (ctx : Context) (q : Query) (s : Store D)
    → (p : Page) × ((pull ctx q s).0 ≡ ok p)
      × (p.changes ≡ page_of ctx q s.conflicts s.events)
      × (p.next_since_version ≡ latest_version q.since_version p.changes)
      × (p.has_more ≡ nat_eq (length p.changes) q.limit)
      × (p.since_version ≡ q.since_version)
unfolding pull ◌>>=◌
reply-pull ctx q s = (_, refl, refl, refl, refl, refl)

-- the last element has the version that is reported
pub last_key :
    (since v : ℕ) (xs : List SyncEvent)
    → All (λ e. is_after since e ≡ true) xs
    → (xs ≡ []) × (latest_version since xs ≡ since)
      ⊎ ((e : SyncEvent) × Elem e xs × (latest_version since xs ≡ version_key e))
unfolding latest_version
last_key since v [] h = inl (refl, refl)
last_key since v (x ∷ []) h = inr (x, inl refl, ground (arith, h.0))
last_key since v (x ∷ y ∷ xs) h = elim (last_key since v (y ∷ xs) h.1) [
  | inl e ↦ absurd (cc)
  | inr (e, k, q) ↦ inr (e, inr k, q)
]

Pairwise-Elem :
    (R : SyncEvent → SyncEvent → Type 0) (a b : SyncEvent) (xs : List SyncEvent)
    → Pairwise R xs
    → Elem a xs
    → Elem b xs
    → (a ≡ b) ⊎ (R a b ⊎ R b a)
Pairwise-Elem R a b [] h ea eb = absurd ea
Pairwise-Elem R a b (x ∷ xs) (q, h) (inl ea) (inl eb) = inl (ea ∙ sym eb)
Pairwise-Elem R a b (x ∷ xs) (q, h) (inl ea) (inr eb) = inr (inl (rw ea (All-elem (R x) b xs q eb)))
Pairwise-Elem R a b (x ∷ xs) (q, h) (inr ea) (inl eb) = inr (inr (rw eb (All-elem (R x) a xs q ea)))
Pairwise-Elem R a b (x ∷ xs) (q, h) (inr ea) (inr eb) = Pairwise-Elem R a b xs h ea eb

published_of_delivered : (a b c : Bool) → (a || b && c) ≡ true → (a || b) ≡ true
published_of_delivered a b c h = ground arith

delivered-IsPublished :
    (cs : List Conflict) (e : SyncEvent) → is_delivered cs e ≡ true → is_published e ≡ true
unfolding is_delivered
delivered-IsPublished cs e h =
    published_of_delivered (is_status e.status EventStatus.accepted)
      (is_status e.status EventStatus.conflict) (conflict_is_live cs e) h

visible_parts :
    (ctx : Context) (q : Query) (cs : List Conflict) (e : SyncEvent)
    → is_visible ctx q cs e ≡ true
    → ((e.company_id == ctx.company_id) ≡ true) × (is_delivered cs e ≡ true)
unfolding is_visible
visible_parts ctx q cs e h = (ground arith, ground arith)

counts_of_selected :
    (ctx : Context) (q : Query) (cs : List Conflict) (e : SyncEvent)
    → is_selected ctx q cs e ≡ true
    → (counts ctx.company_id e ≡ true) × (is_after q.since_version e ≡ true)
counts_of_selected ctx q cs e h =
    let (visible, after) = (and-eq-true_iff _ _).0 h in
    let (mine, delivered) = visible_parts ctx q cs e visible in
    ((and-eq-true_iff _ _).1 (mine, delivered-IsPublished cs e delivered), after)

-- two selected events with different versions, one not after the other in the order
later_of_apart :
    (since : ℕ) (l e : SyncEvent)
    → is_after since l ≡ true
    → is_after since e ≡ true
    → version_key l ≤ version_key e
    → l.server_version ≢ e.server_version
    → is_after (version_key l) e ≡ true
later_of_apart since l e a b le ne = ground arith

pub selected_later :
    (ctx : Context) (q : Query) (cs : List Conflict) (e : SyncEvent) (n : ℕ)
    → is_selected ctx q cs e ≡ true
    → is_after n e ≡ true
    → is_selected ctx (record q { since_version = n }) cs e ≡ true
unfolding is_visible has_feature is_from_device
selected_later ctx q cs e n h k =
    (and-eq-true_iff (is_visible ctx q cs e) _).1 (((and-eq-true_iff _ _).0 h).0, k)

after-lt : (n : ℕ) (e : SyncEvent) → is_after n e ≡ true → n < version_key e
after-lt n e h = ground arith

module _ (ctx : Context) (q : Query) (cs : List Conflict) (events : List SyncEvent) where
  abbrev pub found : List SyncEvent
  found = filter (is_selected ctx q cs) events

  abbrev pub rows : List SyncEvent
  rows = page_of ctx q cs events

  pub Elem-rows : (e : SyncEvent) → Elem e rows → Elem e events × (is_selected ctx q cs e ≡ true)
  unfolding page_of
  Elem-rows e h =
      (Elem-filter _ e events).0
        ((Elem-by_version_asc e found).0 (Elem-of_take q.limit e (by_version_asc found) h))

  -- The last row of a page and a selected row that the page does not hold.
  beyond_last :
      (l e : SyncEvent)
      → Pairwise (Apart ctx.company_id) events
      → Elem l rows
      → Elem e events
      → is_selected ctx q cs e ≡ true
      → version_key l ≤ version_key e
      → Elem e rows ⊎ (is_after (version_key l) e ≡ true)
  beyond_last l e apart in_page in_events chosen le =
      let (in_events', chosen') = Elem-rows l in_page in
      let (cl, al) = counts_of_selected ctx q cs l chosen' in
      let (ce, ae) = counts_of_selected ctx q cs e chosen in
      elim (Pairwise-Elem (Apart ctx.company_id) l e events apart in_events' in_events) [
        | inl eq ↦ inl (rw (sym eq) in_page)
        | inr (inl r) ↦ inr (later_of_apart q.since_version l e al ae le (r.1 cl ce))
        | inr (inr r) ↦ inr (later_of_apart q.since_version l e al ae le (λ p. r.1 ce cl (sym p)))
      ]

  All-after : All (λ e. is_after q.since_version e ≡ true) rows
  All-after = All-of_Elem _ rows (λ e h. (counts_of_selected ctx q cs e (Elem-rows e h).1).1)

  -- The page is full, and its last row is not after the selected row that is asked about.
  cut :
      (e : SyncEvent)
      → Pairwise (Apart ctx.company_id) events
      → Elem e events
      → is_selected ctx q cs e ≡ true
      → (length rows ≡ q.limit) × All (λ y. version_key y ≤ version_key e) rows
      → Elem e rows
        ⊎ ((length rows ≡ q.limit) × (is_after (latest_version q.since_version rows) e ≡ true))
  cut e apart in_events chosen (full, le) = elim (last_key q.since_version 0 rows All-after) [
    | inl (empty, eq) ↦ inr (full, rw eq (counts_of_selected ctx q cs e chosen).1)
    | inr (l, in_page, eq) ↦
        elim (beyond_last l e apart in_page in_events chosen (All-elem _ l rows le in_page)) [
          | inl h ↦ inl h
          | inr h ↦ inr (full, rw eq h)
        ]
  ]

  pub rows_cover :
      (e : SyncEvent)
      → Pairwise (Apart ctx.company_id) events
      → Elem e events
      → is_selected ctx q cs e ≡ true
      → Elem e rows
        ⊎ ((length rows ≡ q.limit) × (is_after (latest_version q.since_version rows) e ≡ true))
  rows_cover e apart in_events chosen =
      let sorted = by_version_asc-IsSorted found in
      let in_found = (Elem-filter _ e events).1 (in_events, chosen) in
      elim (take_cut q.limit e (by_version_asc found) sorted
        ((Elem-by_version_asc e found).1 in_found)) [
          | inl h ↦ inl (unfold page_of in h)
          | inr h ↦ cut e apart in_events chosen (unfold page_of in h)
        ]

  pub advances :
      0 < q.limit → length rows ≡ q.limit → q.since_version < latest_version q.since_version rows
  advances pos full = elim (last_key q.since_version 0 rows All-after) [
    | inl (empty, eq) ↦ absurd (omega (arith, ap length empty))
    | inr (l, in_page, eq) ↦
        rw eq (after-lt q.since_version l (All-elem _ l rows All-after in_page))
  ]
