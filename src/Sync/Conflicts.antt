-- ===== src/Sync/Conflicts.antt =====
-- sync-conflict.service.ts: a tenant's conflicts are listed and resolved.
pub mod Laws
use tatuzin.Prelude.{
  ℕ, ◌&&◌, Bool, true, false, Option, none, some, List, [], ◌∷◌, ◌==◌, nat_eq, filter, find?, take,
  if◌then◌else◌,
}
use mathlib.Core.List.{reverse}
use tatuzin.Payload.Json.{Fields}
use tatuzin.Exec.{Exec, pure, throw, gets, modify, app_error, ◌>>=◌}
use tatuzin.Sync.Types.{
  Context, Conflict, ConflictStatus, Store, opened, resolved, ignored, by_hand,
}
use tatuzin.Sync.Tables.{update_first}

abbrev is_conflict_status : ConflictStatus → ConflictStatus → Bool
is_conflict_status opened opened = true
is_conflict_status resolved resolved = true
is_conflict_status ignored ignored = true
is_conflict_status _ _ = false

-- the row that `resolve` writes
abbrev pub resolve_row : Context → Fields → Conflict → Conflict
resolve_row ctx resolution c = record c {
  status = resolved;
  resolution = some (by_hand resolution);
  resolved_at = some ctx.now;
  resolved_by_user_id = some ctx.user_id;
}

abbrev pub is_mine : Context → ℕ → Conflict → Bool
is_mine ctx id c = nat_eq c.id id && c.company_id == ctx.company_id

module _ {D : Type 0} where
  -- `list`: newest first
  unfoldable pub list : Context → ConflictStatus → ℕ → Store D → List Conflict
  list ctx status limit s = take limit (
      reverse (
        filter (λ c. c.company_id == ctx.company_id && is_conflict_status c.status status)
          s.conflicts))

  resolve_found : Context → Fields → Option Conflict → Exec (Store D) Conflict
  resolve_found ctx resolution none = throw (app_error 404 "SYNC_CONFLICT_NOT_FOUND")
  resolve_found ctx resolution (some c) =
      if is_conflict_status c.status opened
      then modify
          (λ s. record s {
            conflicts =
                update_first (λ x. nat_eq x.id c.id) (resolve_row ctx resolution) s.conflicts;
          })
          (resolve_row ctx resolution c)
      else pure c

  -- `resolve`
  unfoldable pub resolve : Context → ℕ → Fields → Exec (Store D) Conflict
  unfolding resolve_found
  resolve ctx id resolution = do
    found ← gets (λ s. find? (is_mine ctx id) s.conflicts)
    resolve_found ctx resolution found
