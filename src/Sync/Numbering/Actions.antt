-- ===== src/Sync/Numbering/Actions.antt =====
-- The actions on the sync tables keep a numbered store numbered.
use tatuzin.Prelude.{
  ◌∙◌, ℕ, ◌≤◌, ◌<◌, String, ◌≡◌, ◌≢◌, refl, sym, true, false, Option, some, List, arith, inl, inr,
  All-map, any, Bool-cases, nat_eq,
}
use tatuzin.Exec.Keeps.{Keeps}
use tatuzin.Exec.Ensures.{Ensures}
use tatuzin.Sync.Types.{Context, SyncEvent, SyncState, Store, Conflict, Severity, has_key}
use tatuzin.Sync.Tables.{
  update_first, record_push, create_event, update_event, create_conflict, create_incident,
}
use tatuzin.Sync.Numbering.{
  is_published, counts, IsOwned, KeepsKey, IsStable, Holds, HoldsFresh, Creates,
}
use tatuzin.Sync.Numbering.Steps.{append-Holds, change-Holds}

module _ {D : Type 0} (c : String) (Q : List SyncState → List SyncEvent → Type 0) where
  -- A write that leaves the versions and the events as they are, and takes no used id.
  pub same-Holds :
      (s t : Store D)
      → t.states ≡ s.states
      → t.events ≡ s.events
      → s.next_id ≤ t.next_id
      → Holds c Q s
      → Holds c Q t
  same-Holds s t es ee le h = record {
    numbered = record {
      bounded = rw (es, ee) h.numbered.bounded;
      apart = rw ee h.numbered.apart;
      ids = rw ee (All-map s.events (λ e lt. omega arith) h.numbered.ids);
    };
    fact = rw (es, ee) h.fact;
  }

  pub record_push-Keeps :
      (ctx : Context) (device feature : String) (v : ℕ)
      → Keeps (Holds {D = D} c Q) (record_push ctx device feature v)
  unfolding record_push
  record_push-Keeps ctx device feature v = record {
    at = λ s h. same-Holds s _ refl refl (omega arith) h;
  }

  pub create_incident-Keeps :
      (ctx : Context) (event : Option ℕ) (code : String) (severity : Severity)
      → Keeps (Holds {D = D} c Q) (create_incident ctx event code severity)
  unfolding create_incident
  create_incident-Keeps ctx event code severity = record {
    at = λ s h. same-Holds s _ refl refl (omega arith) h;
  }

  pub create_conflict-Keeps : (row : Conflict) → Keeps (Holds {D = D} c Q) (create_conflict row)
  unfolding create_conflict
  create_conflict-Keeps row = record {
    at = λ s h.
        elim (Bool-cases (any (λ x. nat_eq x.sync_event_id row.sync_event_id) s.conflicts)) [
          | inl e ↦ rw e h
          | inr e ↦ rw e (same-Holds s _ refl refl (omega arith) h)
        ];
  }

  module _ (stable : IsStable c Q) where
    -- A row that is not published is created.
    pub create_unpublished-Keeps :
        (row : SyncEvent)
        → row.company_id ≡ c
        → is_published row ≡ false
        → Keeps (Holds {D = D} c Q) (create_event row)
    unfolding create_event
    create_unpublished-Keeps row mine hidden = record {
      at = λ s h.
          elim (Bool-cases (any (has_key row.company_id row.device_id row.event_id) s.events)) [
            | inl e ↦ rw e h
            | inr e ↦ rw e (
                append-Holds c Q stable s h row mine (λ k. absurd (not_counted k))
                  (All-map s.events (λ x n a b. absurd (not_counted b)) h.numbered.ids))
          ];
    }
      where
        not_counted : counts c row ≡ true → ⊥
        not_counted k = ground arith

    -- A row with a fresh version is created.
    pub create_fresh-Ensures :
        (row : SyncEvent) (v : ℕ)
        → row.company_id ≡ c
        → row.server_version ≡ some v
        → Ensures (HoldsFresh {D = D} c Q v) (create_event row) (λ r. Holds c Q)
    unfolding create_event
    create_fresh-Ensures row v mine version = record {
      at = λ s h.
          elim (Bool-cases (any (has_key row.company_id row.device_id row.event_id) s.events)) [
            | inl e ↦ rw e tt
            | inr e ↦ rw e (
                append-Holds c Q stable s h.holds row mine
                  (λ k. (v, version, omega (arith, h.current)))
                  (All-map s.events (λ x n a b eq. n a (eq ∙ version)) h.fresh))
          ];
    }

    -- A stable fact is not lost when a row is created.
    pub stable-Creates : (device event_id : String) → Creates D c device event_id Q Q
    unfolding create_event
    stable-Creates device event_id = record {
      created = λ row mine d i. record {
        at = λ s h.
            elim (Bool-cases (any (has_key row.company_id row.device_id row.event_id) s.events)) [
              | inl e ↦ rw e tt
              | inr e ↦ rw e (stable.appended s.states s.events _ mine h)
            ];
      };
    }

    update-Ensures :
        (P : Store D → Type 0) (id : ℕ) (f : SyncEvent → SyncEvent)
        → ((s : Store D) → P s → IsOwned c id s.events)
        → ((s : Store D)
            → P s
            → Holds c Q (record s { events = update_first (λ e. nat_eq e.id id) f s.events }))
        → Ensures P (update_event id f) (λ r. Holds c Q)
    unfolding update_event
    update-Ensures P id f owned next = record {
      at = λ s h. let (row, found, mine) = owned s h in rw (found, update_event) (next s h);
    }

    -- A stored event of the tenant gets a fresh version.
    pub update_fresh-Ensures :
        (id v : ℕ) (f : SyncEvent → SyncEvent)
        → KeepsKey f
        → ((e : SyncEvent) → (f e).server_version ≡ some v)
        → ((s : Store D) → Holds c Q s → IsOwned c id s.events)
        → Ensures (HoldsFresh {D = D} c Q v) (update_event id f) (λ r. Holds c Q)
    update_fresh-Ensures id v f key version owned =
        update-Ensures (HoldsFresh c Q v) id f (λ s h. owned s h.holds)
          (λ s h.
            change-Holds c Q stable s h.holds id f key (owned s h.holds)
              (λ e u k. (v, version e, omega (arith, h.current)))
              (λ e. counts c e ≡ true → e.server_version ≢ some v) h.fresh
              (λ x y g a kx ky eq. g ky (sym eq ∙ version x)))

    -- A stored event of the tenant keeps its version, and is not published anew.
    pub update_same-Ensures :
        (id : ℕ) (f : SyncEvent → SyncEvent)
        → KeepsKey f
        → ((e : SyncEvent) → (f e).server_version ≡ e.server_version)
        → ((e : SyncEvent) → counts c (f e) ≡ true → counts c e ≡ true)
        → ((s : Store D) → Holds c Q s → IsOwned c id s.events)
        → Ensures (Holds {D = D} c Q) (update_event id f) (λ r. Holds c Q)
    update_same-Ensures id f key version published owned =
        update-Ensures (Holds c Q) id f owned (λ s h.
          change-Holds c Q stable s h id f key (owned s h)
            (λ e u k. rw (version e) (u (published e k))) (λ e. e.id < s.next_id) h.numbered.ids
            (λ x y g a kx ky eq. a.1 (published x kx) ky (sym (version x) ∙ eq)))
