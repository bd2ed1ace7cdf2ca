-- ===== src/Sync/Order.antt =====
-- Rows in the order of their server versions, as the queries' `orderBy` gives them.
pub mod Laws
use tatuzin.Prelude.{ℕ, Option, List, [], ◌∷◌, leb, get_or, if◌then◌else◌}
use tatuzin.Sync.Types.{SyncEvent}

abbrev pub version_key : SyncEvent → ℕ
version_key e = get_or e.server_version 0

-- Insertion after the rows of smaller key, before those of an equal or greater one.
unfoldable pub insert_asc : SyncEvent → List SyncEvent → List SyncEvent
insert_asc x [] = x ∷ []
insert_asc x (y ∷ ys) =
    if leb (version_key x) (version_key y) then x ∷ y ∷ ys else y ∷ insert_asc x ys

-- `orderBy: { serverVersion: "asc" }`; equal versions stay in the order of the table
unfoldable pub by_version_asc : List SyncEvent → List SyncEvent
unfolding insert_asc
by_version_asc [] = []
by_version_asc (x ∷ xs) = insert_asc x (by_version_asc xs)

unfoldable pub insert_desc : SyncEvent → List SyncEvent → List SyncEvent
insert_desc x [] = x ∷ []
insert_desc x (y ∷ ys) =
    if leb (version_key x) (version_key y) then y ∷ insert_desc x ys else x ∷ y ∷ ys

-- `orderBy: [{ serverVersion: "desc" }, { createdAt: "desc" }]`: a later row comes first
unfoldable pub by_version_desc : List SyncEvent → List SyncEvent
unfolding insert_desc
by_version_desc [] = []
by_version_desc (x ∷ xs) = insert_desc x (by_version_desc xs)
