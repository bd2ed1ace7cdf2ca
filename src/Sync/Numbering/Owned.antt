-- ===== src/Sync/Numbering/Owned.antt =====
-- Which rows belong to the tenant is itself stable, and can be joined to any other stable fact.
use tatuzin.Prelude.{
  ℕ, String, ◌≡◌, ◌≢◌, refl, sym, ap, ◌∙◌, false, some, List, [], ◌∷◌, ◌++◌, arith, inl, inr, All,
  Bool-cases, nat_eq, nat_eq_iff,
}
use tatuzin.Sync.Types.{SyncEvent, SyncState}
use tatuzin.Sync.Tables.{update_first}
use tatuzin.Sync.Order.Laws.{Elem, All-elem}
use tatuzin.Sync.Numbering.{Pairwise, Apart, IsOwned, KeepsKey, IsStable}

pub Both-IsStable :
    (c : String) (Q R : List SyncState → List SyncEvent → Type 0)
    → IsStable c Q
    → IsStable c R
    → IsStable c (λ ss es. Q ss es × R ss es)
Both-IsStable c Q R q r = record {
  bumped = λ ss es h. (q.bumped ss es h.0, r.bumped ss es h.1);
  appended = λ ss es row e h. (q.appended ss es row e h.0, r.appended ss es row e h.1);
  changed = λ ss es id f k o h. (q.changed ss es id f k o h.0, r.changed ss es id f k o h.1);
}

module _ (c : String) (id : ℕ) where
  IsOwned-append :
      (es : List SyncEvent) (new : SyncEvent) → IsOwned c id es → IsOwned c id (es ++ new ∷ [])
  IsOwned-append [] new (row, found, mine) = cc
  IsOwned-append (e ∷ es) new (row, found, mine) = elim (Bool-cases (nat_eq e.id id)) [
    | inl p ↦ (row, rw p (rw p at found), mine)
    | inr p ↦
        let (row', found', mine') = IsOwned-append es new (row, rw p at found, mine) in
        (row', rw p found', mine')
  ]

  -- the head of the list is replaced by a row with the same id and tenant
  IsOwned-head :
      (e e' : SyncEvent) (es : List SyncEvent)
      → e'.id ≡ e.id
      → e'.company_id ≡ e.company_id
      → IsOwned c id (e ∷ es)
      → IsOwned c id (e' ∷ es)
  IsOwned-head e e' es same_id same_company (row, found, mine) =
      elim (Bool-cases (nat_eq e.id id)) [
        | inl p ↦
            let h : some e ≡ some row = rw p at found in
            let is_e : e ≡ row = cc in
            (
              e',
              rw same_id (rw p),
              same_company ∙ (ap (λ (r : SyncEvent). r.company_id) is_e ∙ mine),
            )
        | inr p ↦ (row, rw same_id (rw p (rw p at found)), mine)
      ]

  IsOwned-change :
      (es : List SyncEvent) (k : ℕ) (f : SyncEvent → SyncEvent)
      → KeepsKey f
      → IsOwned c id es
      → IsOwned c id (update_first (λ e. nat_eq e.id k) f es)
  IsOwned-change [] k f key (row, found, mine) = cc
  IsOwned-change (e ∷ es) k f key (row, found, mine) = elim (Bool-cases (nat_eq e.id k)) [
    | inl hit ↦ rw hit (IsOwned-head e (f e) es (key.id e) (key.company_id e) (row, found, mine))
    | inr miss ↦ rw miss (elim (Bool-cases (nat_eq e.id id)) [
      | inl p ↦ (row, rw p (rw p at found), mine)
      | inr p ↦
          let (row', found', mine') = IsOwned-change es k f key (row, rw p at found, mine) in
          (row', rw p found', mine')
    ])
  ]

  IsOwned-IsStable : IsStable c (λ ss es. IsOwned c id es)
  IsOwned-IsStable = record {
    bumped = λ ss es h. h;
    appended = λ ss es row e h. IsOwned-append es row h;
    changed = λ ss es k f key o h. IsOwned-change es k f key h;
  }

abbrev pub AllOwned : String → List SyncEvent → List SyncEvent → Type 0
AllOwned c rows es = All (λ r. IsOwned c r.id es) rows

pub AllOwned-IsStable :
    (c : String) (rows : List SyncEvent) → IsStable c (λ ss es. AllOwned c rows es)
AllOwned-IsStable c [] = record {
  bumped = λ ss es h. h;
  appended = λ ss es row e h. h;
  changed = λ ss es k f key o h. h;
}
AllOwned-IsStable c (r ∷ rows) =
    Both-IsStable c (λ ss es. IsOwned c r.id es) (λ ss es. AllOwned c rows es)
      (IsOwned-IsStable c r.id) (AllOwned-IsStable c rows)

ne_test : (a b : ℕ) → a ≢ b → nat_eq a b ≡ false
ne_test a b h = ground arith

-- A stored row of the tenant is the row that its id finds, since no two rows share an id.
pub IsOwned-of_Elem :
    (c : String) (r : SyncEvent) (es : List SyncEvent)
    → Pairwise (Apart c) es
    → Elem r es
    → r.company_id ≡ c
    → IsOwned c r.id es
IsOwned-of_Elem c r [] h e mine = absurd e
IsOwned-of_Elem c r (x ∷ es) (q, h) (inl e) mine =
    (x, rw e (rw ((nat_eq_iff x.id x.id).1 refl)), rw (sym e) mine)
IsOwned-of_Elem c r (x ∷ es) (q, h) (inr e) mine =
    let apart = All-elem (Apart c x) r es q e in
    let miss : nat_eq x.id r.id ≡ false = ne_test x.id r.id apart.0 in
    let (row, found, mine') = IsOwned-of_Elem c r es h e mine in (row, rw miss found, mine')
