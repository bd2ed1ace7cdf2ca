-- ===== src/Sync/Numbering/Facts.antt =====
-- Facts about the versions and the events that every write of the sync for a tenant keeps.
use tatuzin.Prelude.{
  ℕ, ◌≤◌, String, ◌≡◌, ◌≢◌, refl, ap, ◌∙◌, true, false, some, List, [], ◌∷◌, ◌++◌, arith, inl, inr,
  any, filter, nat_eq, ◌==◌, eq_iff, Bool-cases,
}
use tatuzin.Sync.Types.{SyncEvent, SyncState, has_key}
use tatuzin.Sync.Tables.{update_first, version_of}
use tatuzin.Sync.Tables.Lists.{version_of-bump}
use tatuzin.Sync.Numbering.{IsOwned, KeepsKey, IsStable}

-- the rows of one tenant
abbrev pub events_of : String → List SyncEvent → List SyncEvent
events_of company es = filter (λ e. e.company_id == company) es

pub always-IsStable : (c : String) → IsStable c (λ ss es. Unit)
always-IsStable c = record {
  bumped = λ ss es h. tt;
  appended = λ ss es row e h. tt;
  changed = λ ss es id f k o h. tt;
}

-- the rows and the version of another tenant
abbrev pub IsUntouched : String → List SyncEvent → ℕ → List SyncState → List SyncEvent → Type 0
IsUntouched d rows n ss es = (events_of d es ≡ rows) × (version_of d ss ≡ n)

events_of-append :
    (c d : String) (es : List SyncEvent) (row : SyncEvent)
    → c ≢ d
    → row.company_id ≡ c
    → events_of d (es ++ row ∷ []) ≡ events_of d es
events_of-append c d [] row ne mine = ground (arith, eq_iff row.company_id d)
events_of-append c d (e ∷ es) row ne mine = rw (events_of-append c d es row ne mine)

not_of_other : (c d x : String) → c ≢ d → x ≡ c → (x == d) ≡ false
not_of_other c d x ne e = ground (arith, eq_iff x d)

events_of-change :
    (c d : String) (es : List SyncEvent) (id : ℕ) (f : SyncEvent → SyncEvent)
    → c ≢ d
    → KeepsKey f
    → IsOwned c id es
    → events_of d (update_first (λ e. nat_eq e.id id) f es) ≡ events_of d es
events_of-change c d [] id f ne key owned = refl
events_of-change c d (e ∷ es) id f ne key (row, found, mine) = elim (Bool-cases (nat_eq e.id id)) [
  | inl p ↦
      let h : some e ≡ some row = rw p at found in
      let is_row : e ≡ row = cc in
      let here : e.company_id ≡ c = ap (λ (r : SyncEvent). r.company_id) is_row ∙ mine in
      rw p (
        rw (
          not_of_other c d (f e).company_id ne (key.company_id e ∙ here),
          not_of_other c d e.company_id ne here,
        ))
  | inr p ↦ rw p (rw (events_of-change c d es id f ne key (row, rw p at found, mine)))
]

pub IsUntouched-IsStable :
    (c d : String) (rows : List SyncEvent) (n : ℕ) → c ≢ d → IsStable c (IsUntouched d rows n)
IsUntouched-IsStable c d rows n ne = record {
  bumped = λ ss es h. (h.0, ground (arith, version_of-bump c d ss, eq_iff c d));
  appended = λ ss es row e h. (events_of-append c d es row ne e ∙ h.0, h.1);
  changed = λ ss es id f k o h. (events_of-change c d es id f ne k o ∙ h.0, h.1);
}

-- an event is stored, and a version is reached
abbrev pub IsRemembered : String → String → String → List SyncState → List SyncEvent → Type 0
IsRemembered company device id ss es = any (has_key company device id) es ≡ true

remembered-append :
    (c d i : String) (es : List SyncEvent) (row : SyncEvent)
    → any (has_key c d i) es ≡ true
    → any (has_key c d i) (es ++ row ∷ []) ≡ true
remembered-append c d i [] row h = cc
remembered-append c d i (e ∷ es) row h = ground (arith, remembered-append c d i es row)

has_key-keeps :
    (c d i : String) (f : SyncEvent → SyncEvent) (e : SyncEvent)
    → KeepsKey f
    → has_key c d i (f e) ≡ has_key c d i e
has_key-keeps c d i f e key = rw (key.company_id e, key.device_id e, key.event_id e)

remembered-change :
    (c d i : String) (es : List SyncEvent) (k : ℕ) (f : SyncEvent → SyncEvent)
    → KeepsKey f
    → any (has_key c d i) es ≡ true
    → any (has_key c d i) (update_first (λ e. nat_eq e.id k) f es) ≡ true
remembered-change c d i [] k f key h = h
remembered-change c d i (e ∷ es) k f key h = elim (Bool-cases (nat_eq e.id k)) [
  | inl p ↦ rw p (rw (has_key-keeps c d i f e key) h)
  | inr p ↦ rw p (ground (arith, remembered-change c d i es k f key))
]

pub IsRemembered-IsStable : (t c d i : String) → IsStable t (IsRemembered c d i)
IsRemembered-IsStable t c d i = record {
  bumped = λ ss es h. h;
  appended = λ ss es row e h. remembered-append c d i es row h;
  changed = λ ss es id f k o h. remembered-change c d i es id f k h;
}

pub reached-IsStable : (t c : String) (n : ℕ) → IsStable t (λ ss es. n ≤ version_of c ss)
reached-IsStable t c n = record {
  bumped = λ ss es h. ground (arith, version_of-bump t c ss);
  appended = λ ss es row e h. h;
  changed = λ ss es id f k o h. h;
}
