-- ===== src/Sync/Numbering/Steps.antt =====
-- Each write of the sync keeps a numbered store numbered.
use tatuzin.Prelude.{
  ◌∙◌, ℕ, suc, ◌≤◌, ◌<◌, String, ◌≡◌, ◌≢◌, refl, sym, true, some, List, [], ◌∷◌, ◌++◌, arith, All,
  All-map, All-concat, nat_eq, eq_refl,
}
use tatuzin.Exec.Ensures.{Ensures}
use tatuzin.Sync.Types.{SyncEvent, SyncState, Store}
use tatuzin.Sync.Tables.{update_first, version_of, bump, next_company_version}
use tatuzin.Sync.Tables.Lists.{
  version_of-bump, Pairwise-concat, All-update_first, Pairwise-update_first,
}
use tatuzin.Sync.Numbering.{
  counts, HasVersionUpTo, Apart, IsOwned, KeepsKey, IsStable, Holds, HoldsFresh,
}

Apart-symm : (c : String) (x y : SyncEvent) → Apart c x y → Apart c y x
Apart-symm c x y (i, v) = ((λ e. i (sym e)), (λ a b e. v b a (sym e)))

pub upto_later :
    (c : String) (m n : ℕ) (e : SyncEvent) → m ≤ n → HasVersionUpTo c m e → HasVersionUpTo c n e
upto_later c m n e le h k = let (v, a, b) = h k in (v, a, omega arith)

fresh_of_upto :
    (c : String) (n : ℕ) (e : SyncEvent)
    → HasVersionUpTo c n e
    → counts c e ≡ true
    → e.server_version ≢ some (suc n)
fresh_of_upto c n e h k eq = let (v, a, b) = h k in ground arith

module _ {D : Type 0} (c : String) (Q : List SyncState → List SyncEvent → Type 0)
    (stable : IsStable c Q) where
  pub bumped-HoldsFresh :
      (s : Store D)
      → Holds c Q s
      → HoldsFresh c Q (suc (version_of c s.states)) (record s { states = bump c s.states })
  bumped-HoldsFresh s h =
      let n = version_of c s.states in
      let up : version_of c (bump c s.states) ≡ suc n = rw version_of-bump (rw (eq_refl c) refl) in
      record {
        holds = record {
          numbered = record {
            bounded =
                rw up (
                  All-map s.events (λ e. upto_later c n (suc n) e (omega arith))
                    h.numbered.bounded);
            apart = h.numbered.apart;
            ids = h.numbered.ids;
          };
          fact = stable.bumped s.states s.events h.fact;
        };
        current = up;
        fresh = All-map s.events (fresh_of_upto c n) h.numbered.bounded;
      }

  -- `nextCompanyVersion` gives a version that no published event has.
  pub next_company_version-Ensures :
      Ensures (Holds {D = D} c Q) (next_company_version c) (HoldsFresh c Q)
  unfolding next_company_version
  next_company_version-Ensures = record {
    at = λ s h. let k = bumped-HoldsFresh s h in rw (sym k.current) at (k);
  }

  module _ (s : Store D) (h : Holds c Q s) where
    -- A new row whose version, if it is published, is in range and not taken.
    pub append-Holds :
        (row : SyncEvent)
        → row.company_id ≡ c
        → HasVersionUpTo c (version_of c s.states) row
        → All
            (λ e. counts c e ≡ true → counts c row ≡ true → e.server_version ≢ row.server_version)
            s.events
        → let new : SyncEvent = record row { id = s.next_id } in
          Holds c Q (record s { events = s.events ++ new ∷ []; next_id = suc s.next_id })
    append-Holds row mine upto distinct =
        let new : SyncEvent = record row { id = s.next_id } in
        record {
          numbered = record {
            bounded = All-concat _ s.events h.numbered.bounded upto;
            apart =
                Pairwise-concat (Apart c) s.events new h.numbered.apart
                  (apart_new s.next_id s.events h.numbered.ids distinct);
            ids =
                All-concat _ s.events (All-map s.events (λ e lt. omega arith) h.numbered.ids)
                  (omega arith);
          };
          fact = stable.appended s.states s.events new mine h.fact;
        }
      where
        apart_new :
            (n : ℕ) (es : List SyncEvent)
            → All (λ e. e.id < n) es
            → All
                (λ e.
                  counts c e ≡ true → counts c row ≡ true → e.server_version ≢ row.server_version)
                es
            → All (λ e. Apart c e (record row { id = n })) es
        apart_new n [] lts vs = tt
        apart_new n (e ∷ es) (lt, lts) (v, vs) = (((λ eq. omega arith), v), apart_new n es lts vs)

    -- A changed row with a new version, or with no version that it did not have.
    pub change-Holds :
        (id : ℕ) (f : SyncEvent → SyncEvent)
        → KeepsKey f
        → IsOwned c id s.events
        → ((e : SyncEvent)
            → HasVersionUpTo c (version_of c s.states) e
            → HasVersionUpTo c (version_of c s.states) (f e))
        → (G : SyncEvent → Type 0) → All G s.events
        → ((x y : SyncEvent)
            → G y
            → Apart c x y
            → counts c (f x) ≡ true
            → counts c y ≡ true
            → (f x).server_version ≢ y.server_version)
        → Holds c Q (record s { events = update_first (λ e. nat_eq e.id id) f s.events })
    change-Holds id f key owned upto G known distinct = record {
      numbered = record {
        bounded =
            All-update_first (HasVersionUpTo c (version_of c s.states)) (λ e. nat_eq e.id id) f
              s.events (λ x _. upto x) h.numbered.bounded;
        apart =
            Pairwise-update_first (Apart c) G (λ e. nat_eq e.id id) f s.events (Apart-symm c)
              (λ x y _ g a. ((λ eq. a.0 (sym (key.id x) ∙ eq)), distinct x y g a)) known
              h.numbered.apart;
        ids =
            All-update_first (λ e. e.id < s.next_id) (λ e. nat_eq e.id id) f s.events
              (λ x _ lt. rw (key.id x) lt) h.numbered.ids;
      };
      fact = stable.changed s.states s.events id f key owned h.fact;
    }
