-- ===== src/Sync/Numbering.antt =====
-- How the events of one tenant are numbered: the published ones have versions up to the tenant's
-- current version, and no two share a version or an id.
pub mod Steps
pub mod Actions
pub mod Owned
pub mod Facts
use tatuzin.Prelude.{
  ◌++◌, nat_eq, find?, ℕ, suc, ◌≤◌, ◌<◌, String, Bool, true, ◌&&◌, ◌||◌, ◌≡◌, ◌≢◌, Option, some,
  List, [], ◌∷◌, ◌==◌, All,
}
use tatuzin.Exec.Ensures.{Ensures}
use tatuzin.Sync.Types.{SyncState, SyncEvent, EventStatus, Store, is_status}
use tatuzin.Sync.Tables.{update_first, bump, version_of, create_event}

-- the statuses that a pull may deliver
abbrev pub is_published : SyncEvent → Bool
is_published e = is_status e.status EventStatus.accepted || is_status e.status EventStatus.conflict

abbrev pub counts : String → SyncEvent → Bool
counts company e = e.company_id == company && is_published e

abbrev pub HasVersionUpTo : String → ℕ → SyncEvent → Type 0
HasVersionUpTo company n e =
    counts company e ≡ true → (v : ℕ) × (e.server_version ≡ some v) × (v ≤ n)

abbrev pub Apart : String → SyncEvent → SyncEvent → Type 0
Apart company x y =
    (x.id ≢ y.id)
    × (counts company x ≡ true → counts company y ≡ true → x.server_version ≢ y.server_version)

abbrev pub Pairwise {ℓ κ} : {A : Type ℓ} → (A → A → Type κ) → List A → Type κ
Pairwise R [] = Unit
Pairwise R (x ∷ xs) = All (R x) xs × Pairwise R xs

pub record IsNumbered {D : Type 0} (company : String) (s : Store D) : Type 0 where
  pub bounded : All (HasVersionUpTo company (version_of company s.states)) s.events
  pub apart : Pairwise (Apart company) s.events
  pub ids : All (λ e. e.id < s.next_id) s.events

-- The first row with the id is there and belongs to the tenant.
abbrev pub IsOwned : String → ℕ → List SyncEvent → Type 0
IsOwned company id es =
    (row : SyncEvent) × (find? (λ e. nat_eq e.id id) es ≡ some row) × (row.company_id ≡ company)

-- What an update of a stored event leaves as it was.
pub record KeepsKey (f : SyncEvent → SyncEvent) : Type 0 where
  pub id : (e : SyncEvent) → (f e).id ≡ e.id
  pub company_id : (e : SyncEvent) → (f e).company_id ≡ e.company_id
  pub device_id : (e : SyncEvent) → (f e).device_id ≡ e.device_id
  pub event_id : (e : SyncEvent) → (f e).event_id ≡ e.event_id

-- A fact about the versions and the events that every write of the sync for a tenant keeps.
pub record IsStable (company : String) (Q : List SyncState → List SyncEvent → Type 0) : Type 0 where
  pub bumped : (ss : List SyncState) (es : List SyncEvent) → Q ss es → Q (bump company ss) es
  pub appended :
      (ss : List SyncState) (es : List SyncEvent) (row : SyncEvent)
      → row.company_id ≡ company
      → Q ss es
      → Q ss (es ++ row ∷ [])
  pub changed :
      (ss : List SyncState) (es : List SyncEvent) (id : ℕ) (f : SyncEvent → SyncEvent)
      → KeepsKey f
      → IsOwned company id es
      → Q ss es
      → Q ss (update_first (λ e. nat_eq e.id id) f es)

-- The tenant's events are numbered, and the fact holds.
pub record Holds {D : Type 0} (company : String) (Q : List SyncState → List SyncEvent → Type 0)
    (s : Store D) : Type 0 where
  pub numbered : IsNumbered company s
  pub fact : Q s.states s.events

-- The state right after the tenant's version was raised to `v`: no event has that version yet.
pub record HoldsFresh {D : Type 0} (company : String) (Q : List SyncState → List SyncEvent → Type 0)
    (v : ℕ) (s : Store D) : Type 0 where
  pub holds : Holds company Q s
  pub current : version_of company s.states ≡ v
  pub fresh : All (λ e. counts company e ≡ true → e.server_version ≢ some v) s.events

-- `Q` becomes `R` when a row of the given tenant, device and event is created.
pub record Creates (D : Type 0) (company device event_id : String)
    (Q R : List SyncState → List SyncEvent → Type 0) : Type 0 where
  pub created :
      (row : SyncEvent)
      → row.company_id ≡ company
      → row.device_id ≡ device
      → row.event_id ≡ event_id
      → Ensures {S = Store D}
          (λ s. Q s.states s.events)
          (create_event row)
          (λ r s. R s.states s.events)
